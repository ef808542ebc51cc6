-- ===== src/Reactor/TimerQueue/Run.antt =====
-- `AddTimerInLoop` and `HandleRead` on a queue whose timers have numbers of their own.
use wethands.Prelude.{
  ℕ, ◌-◌, ◌^◌, ◌<◌, ◌≡◌, ◌≢◌, ◌↔◌, refl, inl, inr, false, ◌||◌, Option, List, [], ◌∷◌, ltb, ok,
  Returns, Returns-bind, ◌>>=◌, arith, Bool-cases,
}
use wethands.Reactor.Timer.{Timer, TimerIndex, index_of, is_before}
use wethands.Reactor.TimerQueue.{
  TimerQueue, Timespec, insert, is_same, update_timerfd, add_timer_in_loop, first_expiration,
  is_empty,
}
use wethands.Reactor.TimerQueue.Order.{
  Every, Every-map, IsSorted, IsSequence, IsDistinct, Inserted, insert_lem,
}

-- Every index names a timer and agrees with it.
abbrev pub Owned : TimerIndex → Type 0
Owned i = (t : Timer) × (i ≡ index_of t)

pub record IsValid (q : TimerQueue) : Type 0 where
  pub sorted : IsSorted q.timers
  pub distinct : IsDistinct q.timers
  pub sequences : Every IsSequence q.timers
  pub owned : Every Owned q.timers

-- No timer of the queue has this sequence number.
abbrev pub IsFresh : ℕ → TimerQueue → Type 0
IsFresh s q = Every (λ x. x.sequence ≢ s) q.timers

pub differs : (i x : TimerIndex) → x.sequence ≢ i.sequence → is_same i x ≡ false
unfolding is_same is_before
differs i x h = ground arith

-- The set has a first timer, unless it is empty.
pub first_expiration_lem :
    (xs : List TimerIndex) → is_empty xs ≡ false → (n : ℕ) × (first_expiration xs ≡ ok n)
unfolding first_expiration is_empty
first_expiration_lem [] h = absurd (cc h)
first_expiration_lem (x ∷ xs) h = (x.expiration, refl)

module _ (clock : ℕ → ℕ) (settime : Timespec → Option ℕ → Option ℕ) where
  -- Setting the timerfd leaves the timers and the records of the queue as they were.
  pub update_timerfd_lem :
      (q : TimerQueue) (e : ℕ)
      → ((update_timerfd clock settime q e).timers ≡ q.timers)
        × ((update_timerfd clock settime q e).ran ≡ q.ran)
        × ((update_timerfd clock settime q e).deleted ≡ q.deleted)
  unfolding update_timerfd
  update_timerfd_lem q e = elim (Bool-cases (ltb (clock q.readings) e)) [
    | inl ahead ↦ rw ahead (refl, refl, refl)
    | inr past ↦ rw past (refl, refl, refl)
  ]

-- What adding a timer makes of a queue.
pub record Added (q : TimerQueue) (t : Timer) (q' : TimerQueue) : Type 1 where
  pub valid : IsValid q'
  pub every : (P : TimerIndex → Type 0) → Every P q'.timers ↔ (P (index_of t) × Every P q.timers)
  pub same_ran : q'.ran ≡ q.ran
  pub same_deleted : q'.deleted ≡ q.deleted

module _ (q a : TimerQueue) (t : Timer) (v : IsValid q) (fresh : IsFresh t.sequence q) where
  -- Putting a timer into the set after the timerfd was seen to.
  put_in :
      (a.timers ≡ q.timers) × (a.ran ≡ q.ran) × (a.deleted ≡ q.deleted)
      → t.sequence < 2 ^ 63 - 1
      → Returns
          (insert (index_of t) a.timers >>= λ inserted. ok (record a { timers = inserted }))
          (Added q t)
  put_in (same_timers, same_ran, same_deleted) small = rw same_timers (
      Returns-bind (Inserted (index_of t) q.timers) (Added q t) (insert (index_of t) q.timers)
        (λ inserted. ok (record a { timers = inserted }))
        (insert_lem (index_of t) q.timers v.sorted (
          Every-map (λ x. x.sequence ≢ t.sequence) (λ x. is_same (index_of t) x ≡ false) q.timers
            (λ x h. differs (index_of t) x h) fresh))
        (λ ys inserted. record {
          valid = record {
            sorted = inserted.sorted;
            distinct = inserted.distinct v.distinct fresh;
            sequences = (inserted.every IsSequence).1 (small, v.sequences);
            owned = (inserted.every Owned).1 ((t, refl), v.owned);
          };
          every = inserted.every;
          same_ran = same_ran;
          same_deleted = same_deleted;
        }))

module _ (clock : ℕ → ℕ) (settime : Timespec → Option ℕ → Option ℕ) where
  -- Whatever is read of an empty set, adding a timer with a number of its own faults in no way,
  -- keeps the timers in order, and adds just that timer.
  pub add_timer_in_loop_lem :
      (q : TimerQueue) (t : Timer)
      → IsValid q
      → IsFresh t.sequence q
      → t.sequence < 2 ^ 63 - 1
      → is_empty q.timers ≡ false
      → Returns (add_timer_in_loop clock settime q t) (Added q t)
  unfolding add_timer_in_loop
  add_timer_in_loop_lem q t v fresh small some_there =
      let (first, goes) = first_expiration_lem q.timers some_there in
      rw goes (elim (Bool-cases (ltb t.expiration first || is_empty q.timers)) [
        | inl earlier ↦ rw earlier (
            put_in q (update_timerfd clock settime q t.expiration) t v fresh
              (update_timerfd_lem clock settime q t.expiration) small)
        | inr later ↦ rw later (put_in q q t v fresh (refl, refl, refl) small)
      ])
