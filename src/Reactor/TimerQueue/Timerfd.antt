-- ===== src/Reactor/TimerQueue/Timerfd.antt =====
-- How the timerfd is armed.
use wethands.Prelude.{
  ℕ, ◌+◌, ◌-◌, ◌*◌, ◌<◌, ◌≤◌, ◌≡◌, false, ap, ◌∙◌, Option, none, some, ltb, arith, lt→ltb,
}
use wethands.Reactor.TimerQueue.{
  TimerQueue, Timespec, timespec, negative, time_difference, update_timerfd,
}

-- timerfd_settime(2): a time of zero disarms the timer, a negative one is refused, and any other
-- arms it.
pub record IsSettime (settime : Timespec → Option ℕ → Option ℕ) : Type 0 where
  pub arms :
      (seconds nanoseconds : ℕ) (old : Option ℕ)
      → 0 < seconds + nanoseconds
      → nanoseconds < 1000000000
      → settime (timespec seconds nanoseconds) old ≡ some (seconds * 1000000000 + nanoseconds)
  pub disarms : (old : Option ℕ) → settime (timespec 0 0) old ≡ none
  pub refuses : (old : Option ℕ) → settime negative old ≡ old

-- The two readings of the clock decide: a first reading that is not before the expiration arms
-- the timerfd for one microsecond; if both are before it, it is armed for exactly the time that is
-- left; if only the second has reached it, the timerfd is disarmed; and if the second is past it,
-- the timerfd stays as it was.
pub update_timerfd_outcome :
    (clock : ℕ → ℕ) (settime : Timespec → Option ℕ → Option ℕ) (q : TimerQueue) (e : ℕ)
    → IsSettime settime
    → (e ≤ clock q.readings → (update_timerfd clock settime q e).timerfd ≡ some 1000)
      × (clock q.readings < e
          → clock (q.readings + 1) < e
          → (update_timerfd clock settime q e).timerfd ≡ some ((e - clock (q.readings + 1)) * 1000))
      × (clock q.readings < e
          → clock (q.readings + 1) ≡ e
          → (update_timerfd clock settime q e).timerfd ≡ none)
      × (clock q.readings < e
          → e < clock (q.readings + 1)
          → (update_timerfd clock settime q e).timerfd ≡ q.timerfd)
unfolding update_timerfd time_difference
update_timerfd_outcome clock settime q e kernel = (
  λ late.
      rw (not_lt (clock q.readings) e late)
        (kernel.arms 0 1000 q.timerfd (omega arith) (omega arith)),
  λ early second.
      rw (lt→ltb _ _ early, not_lt e (clock (q.readings + 1)) (omega arith))
        (kernel.arms _ _ q.timerfd (omega arith) (omega arith) ∙ ap some (omega arith)),
  λ early second.
      rw
        (
          lt→ltb _ _ early,
          not_lt e (clock (q.readings + 1)) (omega arith),
          nothing_left e (clock (q.readings + 1)) second,
        )
        (kernel.disarms q.timerfd),
  λ early second. rw (lt→ltb _ _ early, lt→ltb _ _ second) (kernel.refuses q.timerfd),
)
  where
    not_lt : (a b : ℕ) → b ≤ a → ltb a b ≡ false
    not_lt a b h = ground arith

    nothing_left : (a b : ℕ) → b ≡ a → a - b ≡ 0
    nothing_left a b h = omega arith
