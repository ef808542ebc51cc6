-- ===== src/Reactor/TimerQueue.antt =====
-- src/reactor/TimerQueue.h and TimerQueue.cc: the timers in order, and the timerfd that wakes the
-- loop. `Timestamp::Now()` is the next reading of `clock`; a timer's callback is a parameter, which
-- may call the queue again.
pub mod Order
pub mod Run
pub mod Expire
pub mod HandleRead
pub mod Cancel
pub mod Timerfd
mod Tests
use wethands.Prelude.{
  ℕ, ◌+◌, ◌-◌, ◌*◌, ◌/◌, ◌%◌, ◌^◌, Bool, true, false, not, ◌&&◌, ◌||◌, Option, none, some, List, [],
  ◌∷◌, ◌++◌, ltb, leb, ◌==◌, if◌then◌else◌, Result, ok, fault, null_pointer, bad_access,
  assert_failed, ◌>>=◌, ◌>>◌,
}
use wethands.Reactor.Timer.{Interval, Timer, new_timer, restart, TimerIndex, index_of, is_before}

-- A `struct timespec`, with the sign of its fields.
pub data Timespec : Type 0 where
  timespec : ℕ → ℕ → Timespec
  negative : Timespec

-- `TimeDifference`.
unfoldable pub time_difference : ℕ → ℕ → Timespec
time_difference high low =
    if ltb high low
    then negative
    else timespec ((high - low) / 1000000) ((high - low) % 1000000 * 1000)

pub record TimerQueue : Type 0 where
  -- `timers_`, in the order of the set.
  pub timers : List TimerIndex
  -- How many nanoseconds the timerfd was last armed for; `none` when it is disarmed.
  pub timerfd : Option ℕ
  -- How often the clock was read.
  pub readings : ℕ
  -- The timers whose callbacks ran and those that were deleted, by their sequence numbers.
  pub ran : List ℕ
  pub deleted : List ℕ

abbrev pub new_timer_queue : TimerQueue
new_timer_queue = record { timers = []; timerfd = none; readings = 0; ran = []; deleted = [] }

-- The key of the end of the range of expired timers.
abbrev pub sentry : ℕ → TimerIndex
sentry now = record { timer = none; expiration = now; sequence = 2 ^ 63 - 1 }

-- The timers before an index, and those from `lower_bound` on.
unfoldable pub before : TimerIndex → List TimerIndex → List TimerIndex
before i [] = []
before i (x ∷ xs) = let rest = before i xs in if is_before x i then x ∷ rest else []

unfoldable pub from_lower_bound : TimerIndex → List TimerIndex → List TimerIndex
from_lower_bound i [] = []
from_lower_bound i (x ∷ xs) =
    let rest = from_lower_bound i xs in if is_before x i then rest else x ∷ xs

unfoldable pub get_expired : TimerQueue → ℕ → List TimerIndex × TimerQueue
get_expired q now =
    (before (sentry now) q.timers, record q { timers = from_lower_bound (sentry now) q.timers })

-- `timers_.insert`, whose result is asserted.
unfoldable pub insert : TimerIndex → List TimerIndex → Result (List TimerIndex)
insert i [] = ok (i ∷ [])
insert i (x ∷ xs) =
    let rest = insert i xs in
    if is_before i x
    then ok (i ∷ x ∷ xs)
    else if is_before x i
    then (do ys ← rest; ok (x ∷ ys))
    else fault assert_failed

-- Two indices that neither comes before the other are one key of the set.
unfoldable pub is_same : TimerIndex → TimerIndex → Bool
is_same a b = not (is_before a b) && not (is_before b a)

unfoldable pub has : TimerIndex → List TimerIndex → Bool
has i [] = false
has i (x ∷ xs) = is_same i x || has i xs

unfoldable pub erase : TimerIndex → List TimerIndex → List TimerIndex
erase i [] = []
erase i (x ∷ xs) = let rest = erase i xs in if is_same i x then xs else x ∷ rest

unfoldable pub cancel_timer_in_loop : TimerQueue → TimerIndex → TimerQueue
cancel_timer_in_loop q i =
    if has i q.timers
    then record q { timers = erase i q.timers; deleted = q.deleted ++ i.sequence ∷ [] }
    else q

-- `timers_.begin()->Expiration()`; the iterator of an empty set is not to be dereferenced.
unfoldable pub first_expiration : List TimerIndex → Result ℕ
first_expiration [] = fault bad_access
first_expiration (x ∷ xs) = ok x.expiration

unfoldable pub is_empty : List TimerIndex → Bool
is_empty [] = true
is_empty (x ∷ xs) = false

-- `settime` is what timerfd_settime(2) leaves of an armed or disarmed timerfd.
module _ (clock : ℕ → ℕ) (settime : Timespec → Option ℕ → Option ℕ) where
  -- The clock is read once more between the test and the difference.
  unfoldable pub update_timerfd : TimerQueue → ℕ → TimerQueue
  update_timerfd q expiration =
      if ltb (clock q.readings) expiration
      then record q {
        readings = q.readings + 2;
        timerfd = settime (time_difference expiration (clock (q.readings + 1))) q.timerfd;
      }
      else record q { readings = q.readings + 1; timerfd = settime (timespec 0 1000) q.timerfd }

  unfoldable pub add_timer_in_loop : TimerQueue → Timer → Result TimerQueue
  add_timer_in_loop q t = do
    first ← first_expiration q.timers
    let armed : TimerQueue =
        if ltb t.expiration first || is_empty q.timers then update_timerfd q t.expiration else q
    inserted ← insert (index_of t) armed.timers
    ok (record armed { timers = inserted })

  -- `AddTimer` in the loop's thread.
  unfoldable pub add_timer : TimerQueue → ℕ → ℕ → Interval → ℕ → Result (TimerIndex × TimerQueue)
  add_timer q callback when_ interval count = do
    let t = new_timer callback when_ interval count
    added ← add_timer_in_loop q t
    ok (record { timer = some t; expiration = when_; sequence = t.sequence }, added)

  module _ (callback : ℕ → TimerQueue → Result TimerQueue) where
    -- One expired timer: its callback, and then it is added again or deleted.
    unfoldable pub run_timer : ℕ → TimerQueue → Timer → Result TimerQueue
    run_timer now q t = do
      called ← callback t.callback (record q { ran = q.ran ++ t.sequence ∷ [] })
      if t.repeated
          then add_timer_in_loop called (restart t now)
          else ok (record called { deleted = called.deleted ++ t.sequence ∷ [] })

    unfoldable pub run_index : ℕ → TimerQueue → TimerIndex → Result TimerQueue
    run_index now q i = elim i.timer [ none ↦ fault null_pointer | some t ↦ run_timer now q t ]

    unfoldable pub run_expired : ℕ → TimerQueue → List TimerIndex → Result TimerQueue
    run_expired now q [] = ok q
    run_expired now q (i ∷ is) = run_index now q i >>= λ q'. run_expired now q' is

    -- The end of `HandleRead`.
    unfoldable pub rearm : TimerQueue → Result TimerQueue
    rearm q =
        if not (is_empty q.timers)
        then (do first ← first_expiration q.timers; ok (update_timerfd q first))
        else ok q

    -- Reading the timerfd only clears it.
    unfoldable pub handle_read : TimerQueue → Result TimerQueue
    handle_read q = do
      let now = clock q.readings
      let (expired, rest) = get_expired (record q { readings = q.readings + 1 }) now
      done ← run_expired now rest expired
      rearm done
