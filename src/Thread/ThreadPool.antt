-- ===== src/Thread/ThreadPool.antt =====
-- src/thread/ThreadPool.h and ThreadPool.cc: a queue of tasks and the threads that take them.
-- A critical section runs under the lock and is one step.
pub mod Invariant
pub mod Run
mod Tests
use wethands.Prelude.{
  ℕ, ◌+◌, ◌-◌, Bool, true, false, not, ◌&&◌, ◌||◌, List, [], ◌∷◌, ◌++◌, ltb, leb, ◌==◌, length,
  if◌then◌else◌,
}
use wethands.Prelude.Int.{ℤ, is_positive, pos_part}
use wethands.Thread.Condition.{Condition, unused, wait, notify, notify_all, resume}

pub record ThreadPool {ℓ} (A : Type ℓ) : Type ℓ where
  pub not_empty : Condition
  pub not_full : Condition
  -- How many threads there are.
  pub threads : ℕ
  pub queue : List A
  pub max_queue_size : ℤ
  pub running : Bool
  -- The tasks that were queued, those that a thread took, those that the caller ran by itself, and
  -- those that were given up since the pool had stopped.
  pub queued : List A
  pub taken : List A
  pub run_by_caller : List A
  pub given_up : List A

module _ {ℓ} {A : Type ℓ} where
  -- A pool after `SetMaxQueueSize` and `Start`.
  unfoldable pub start : ℤ → ℕ → ThreadPool A
  start max_queue_size num_threads = record {
    not_empty = unused;
    not_full = unused;
    threads = num_threads;
    queue = [];
    max_queue_size = max_queue_size;
    running = true;
    queued = [];
    taken = [];
    run_by_caller = [];
    given_up = [];
  }

  -- The first critical section of `Stop`; after it the threads are joined.
  unfoldable pub stop : ThreadPool A → ThreadPool A
  stop p = record p {
    running = false;
    not_empty = notify_all p.not_empty;
    not_full = notify_all p.not_full;
  }

  unfoldable pub queue_is_full : ThreadPool A → Bool
  queue_is_full p = is_positive p.max_queue_size && leb (pos_part p.max_queue_size) (length p.queue)

  -- `Run` with some threads, from the test of its loop on, up to the return or the next `Wait`.
  unfoldable pub put : ThreadPool A → A → ThreadPool A
  put p task =
      if queue_is_full p && p.running
      then record p { not_full = wait p.not_full }
      else if not p.running
      then record p { given_up = p.given_up ++ task ∷ [] }
      else record p {
        queue = p.queue ++ task ∷ [];
        queued = p.queued ++ task ∷ [];
        not_empty = notify p.not_empty;
      }

  -- `Run`.
  unfoldable pub run : ThreadPool A → A → ThreadPool A
  run p task =
      if p.threads == 0
      then record p { run_by_caller = p.run_by_caller ++ task ∷ [] }
      else put p task

  -- `Take` from the test of its loop on, for what is queued, up to the return or the next `Wait`. In
  -- a pool that has stopped it returns the empty task.
  unfoldable pub take_from : ThreadPool A → List A → ThreadPool A
  take_from p [] = if p.running then record p { not_empty = wait p.not_empty } else p
  take_from p (task ∷ tasks) =
      if p.running
      then record p {
        queue = tasks;
        taken = p.taken ++ task ∷ [];
        not_full = if is_positive p.max_queue_size then notify p.not_full else p.not_full;
      }
      else p

  unfoldable pub take : ThreadPool A → ThreadPool A
  take p = take_from p p.queue

-- What can happen next: a caller hands over a task, a thread of the pool takes one, a woken thread
-- goes on, one is woken with no signal, or the pool stops.
pub data Event {ℓ} (A : Type ℓ) : Type ℓ where
  calls_run : A → Event A
  calls_take : Event A
  resumes_run : A → Event A
  resumes_take : Event A
  wakes_caller : Event A
  wakes_thread : Event A
  stops : Event A

module _ {ℓ} {A : Type ℓ} where
  -- A thread resumes only if one was woken; `RunInThread` takes tasks only while the pool runs.
  unfoldable pub step : ThreadPool A → Event A → ThreadPool A
  step p (calls_run task) = run p task
  step p calls_take = if p.running then take p else p
  step p (resumes_run task) =
      if ltb 0 p.not_full.woken then put (record p { not_full = resume p.not_full }) task else p
  step p resumes_take =
      if ltb 0 p.not_empty.woken then take (record p { not_empty = resume p.not_empty }) else p
  step p wakes_caller = record p { not_full = notify p.not_full }
  step p wakes_thread = record p { not_empty = notify p.not_empty }
  step p stops = stop p

  unfoldable pub run_events : ThreadPool A → List (Event A) → ThreadPool A
  run_events p [] = p
  run_events p (e ∷ es) = run_events (step p e) es
