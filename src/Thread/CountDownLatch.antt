-- ===== src/Thread/CountDownLatch.antt =====
-- src/thread/CountDownLatch.h and CountDownLatch.cc: threads wait until a counter has come to zero.
pub mod Invariant
mod Tests
use wethands.Prelude.{ℕ, ◌+◌, ◌-◌, List, [], ◌∷◌, ltb, if◌then◌else◌}
use wethands.Prelude.Int.{ℤ, is_positive, is_zero, decrement}
use wethands.Thread.Condition.{Condition, unused, wait, notify, notify_all, resume}

pub record CountDownLatch : Type 0 where
  pub cond : Condition
  pub count : ℤ
  -- How many calls of `Wait` have returned.
  pub passed : ℕ

unfoldable pub new_count_down_latch : ℤ → CountDownLatch
new_count_down_latch count = record { cond = unused; count = count; passed = 0 }

unfoldable pub count_down : CountDownLatch → CountDownLatch
count_down l =
    let lower : CountDownLatch = record l { count = decrement l.count } in
    if is_zero lower.count then record lower { cond = notify_all l.cond } else lower

-- `Wait` of the latch from the test of its loop on, up to the return or the next `Wait` of the
-- condition.
unfoldable pub wait_latch : CountDownLatch → CountDownLatch
wait_latch l =
    if is_positive l.count
    then record l { cond = wait l.cond }
    else record l { passed = l.passed + 1 }

-- A thread counts down or begins to wait, a woken one goes on, or one is woken with no signal.
pub data Event : Type 0 where
  counts_down calls_wait resumes_wait wakes : Event

-- A thread resumes only if one was woken.
unfoldable pub step : CountDownLatch → Event → CountDownLatch
step l counts_down = count_down l
step l calls_wait = wait_latch l
step l resumes_wait =
    if ltb 0 l.cond.woken then wait_latch (record l { cond = resume l.cond }) else l
step l wakes = record l { cond = notify l.cond }

unfoldable pub run : CountDownLatch → List Event → CountDownLatch
run l [] = l
run l (e ∷ es) = run (step l e) es
