-- ===== src/Utils/BoundedBlockingQueue.antt =====
-- src/utils/BoundedBlockingQueue.h: the monitor around the ring, with its two conditions.
-- A critical section runs under the lock and is one step.
pub mod Invariant
mod Tests
use wethands.Prelude.{
  ℕ, ◌+◌, ◌-◌, Bool, true, false, Option, none, some, List, [], ◌∷◌, ◌++◌, ltb, ◌==◌, Result, ok,
  ◌>>=◌, ◌>>◌, if◌then◌else◌,
}
use wethands.Thread.Condition.{Condition, unused, wait, notify, resume}
use wethands.Utils.CircularQueue.{
  CircularQueue, new_queue, push_back, pop_front, front, is_empty, is_full,
}

pub record Monitor {ℓ} (A : Type ℓ) : Type ℓ where
  pub queue : CircularQueue A
  pub not_empty : Condition
  pub not_full : Condition
  -- What went in and what came out, in order.
  pub put_log : List A
  pub taken_log : List A

module _ {ℓ} {A : Type ℓ} where
  unfoldable pub new_monitor : (ℕ → ℕ) → ℕ → Monitor A
  new_monitor reserve max_size = record {
    queue = new_queue reserve max_size;
    not_empty = unused;
    not_full = unused;
    put_log = [];
    taken_log = [];
  }

  -- `Put` from the test of its loop on, up to the return or the next `Wait`.
  unfoldable pub put : Monitor A → A → Result (Monitor A)
  put m x = if is_full m.queue then ok (record m { not_full = wait m.not_full }) else (do
    pushed ← push_back m.queue x
    ok (record m { queue = pushed; not_empty = notify m.not_empty; put_log = m.put_log ++ x ∷ [] }))

  -- `Take` from the test of its loop on, up to the return or the next `Wait`.
  unfoldable pub take : Monitor A → Result (Monitor A)
  take m = if is_empty m.queue then ok (record m { not_empty = wait m.not_empty }) else (do
    x ← front m.queue
    popped ← pop_front m.queue
    ok (record m {
      queue = popped;
      not_full = notify m.not_full;
      taken_log = m.taken_log ++ x ∷ [];
    }))

-- What can happen next: a thread calls `Put` or `Take`, a woken one goes on, or one is woken
-- with no signal.
pub data Event {ℓ} (A : Type ℓ) : Type ℓ where
  calls_put : A → Event A
  calls_take : Event A
  resumes_put : A → Event A
  resumes_take : Event A
  wakes_producer : Event A
  wakes_consumer : Event A

module _ {ℓ} {A : Type ℓ} where
  -- A thread resumes only if one was woken.
  unfoldable pub step : Monitor A → Event A → Result (Monitor A)
  step m (calls_put x) = put m x
  step m calls_take = take m
  step m (resumes_put x) =
      if ltb 0 m.not_full.woken then put (record m { not_full = resume m.not_full }) x else ok m
  step m resumes_take =
      if ltb 0 m.not_empty.woken then take (record m { not_empty = resume m.not_empty }) else ok m
  step m wakes_producer = ok (record m { not_full = notify m.not_full })
  step m wakes_consumer = ok (record m { not_empty = notify m.not_empty })

  -- Any schedule of such events.
  unfoldable pub run : Monitor A → List (Event A) → Result (Monitor A)
  run m [] = ok m
  run m (e ∷ es) = step m e >>= λ m'. run m' es
