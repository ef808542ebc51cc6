-- ===== src/Utils/BlockingQueue.antt =====
-- src/utils/BlockingQueue.h: the monitor around a deque without a bound.
-- A critical section runs under the lock and is one step.
pub mod Invariant
mod Tests
use wethands.Prelude.{ℕ, ◌+◌, ◌-◌, List, [], ◌∷◌, ◌++◌, ltb, if◌then◌else◌}
use wethands.Thread.Condition.{Condition, unused, wait, notify, resume}

pub record BlockingQueue {ℓ} (A : Type ℓ) : Type ℓ where
  pub queue : List A
  pub not_empty : Condition
  -- What went in and what came out, in order.
  pub put_log : List A
  pub taken_log : List A

module _ {ℓ} {A : Type ℓ} where
  unfoldable pub new_blocking_queue : BlockingQueue A
  new_blocking_queue = record { queue = []; not_empty = unused; put_log = []; taken_log = [] }

  unfoldable pub put : BlockingQueue A → A → BlockingQueue A
  put q x = record q {
    queue = q.queue ++ x ∷ [];
    not_empty = notify q.not_empty;
    put_log = q.put_log ++ x ∷ [];
  }

  -- `Take` from the test of its loop on, for what is queued, up to the return or the next `Wait`.
  unfoldable pub take_from : BlockingQueue A → List A → BlockingQueue A
  take_from q [] = record q { not_empty = wait q.not_empty }
  take_from q (x ∷ xs) = record q { queue = xs; taken_log = q.taken_log ++ x ∷ [] }

  unfoldable pub take : BlockingQueue A → BlockingQueue A
  take q = take_from q q.queue

-- What can happen next: a thread calls `Put` or `Take`, a woken one goes on, or one is woken with
-- no signal.
pub data Event {ℓ} (A : Type ℓ) : Type ℓ where
  calls_put : A → Event A
  calls_take : Event A
  resumes_take : Event A
  wakes : Event A

module _ {ℓ} {A : Type ℓ} where
  -- A thread resumes only if one was woken.
  unfoldable pub step : BlockingQueue A → Event A → BlockingQueue A
  step q (calls_put x) = put q x
  step q calls_take = take q
  step q resumes_take =
      if ltb 0 q.not_empty.woken then take (record q { not_empty = resume q.not_empty }) else q
  step q wakes = record q { not_empty = notify q.not_empty }

  unfoldable pub run : BlockingQueue A → List (Event A) → BlockingQueue A
  run q [] = q
  run q (e ∷ es) = run (step q e) es
