-- ===== src/Reactor/EventLoop.antt =====
-- src/reactor/EventLoop.h and EventLoop.cc: the tasks that threads hand to a loop, the eventfd that
-- wakes it, and the end of the loop. The channels that a poll reports are those of Reactor.Poller.
pub mod Tasks
pub mod Wakeups
pub mod Round
mod Tests
use wethands.Prelude.{
  ℕ, zero, suc, ◌+◌, ◌-◌, ◌≡◌, Bool, true, false, not, ◌&&◌, ◌||◌, List, [], ◌∷◌, ◌++◌, ltb, length,
  if◌then◌else◌,
}

-- What eventfd(2) promises: it is readable after a write, and stays so until it is read.
pub record Eventfd {κ} (S : Type κ) : Type κ where
  pub write : S → S
  pub read : S → S
  pub is_readable : S → Bool
  pub readable_once_written : (s : S) → is_readable (write s) ≡ true

-- A task, and whether the thread that queued it was the loop's own.
pub record Task {ℓ} (A : Type ℓ) : Type ℓ where
  pub in_loop_thread : Bool
  pub functor : A

-- Where `Loop` is: in `Poll`; at the callbacks of the active channels, with or without the one of
-- the eventfd still to come; at the tasks that it took out; or past its end.
pub data Phase {ℓ} (A : Type ℓ) : Type ℓ where
  polling : Phase A
  handling : Bool → Phase A
  running : List (Task A) → Phase A
  stopped : Phase A

pub record EventLoop {ℓ κ} (A : Type ℓ) (S : Type κ) : Type (ℓ ⊔ κ) where
  pub quit : Bool
  pub eventfd : S
  pub pending_functors : List (Task A)
  pub phase : Phase A
  -- The calls of other threads that have yet to write to the eventfd.
  pub to_wake : ℕ
  -- What was queued, what the loop has run of it, and what `RunInLoop` ran at once.
  pub queued : List (Task A)
  pub executed : List (Task A)
  pub run_at_once : List A

module _ {ℓ κ} {A : Type ℓ} {S : Type κ} where
  -- A loop that enters `Loop`.
  unfoldable pub new_event_loop : S → EventLoop A S
  new_event_loop eventfd = record {
    quit = false;
    eventfd = eventfd;
    pending_functors = [];
    phase = polling;
    to_wake = 0;
    queued = [];
    executed = [];
    run_at_once = [];
  }

  -- A call from another thread goes on with `Wakeup`.
  unfoldable pub wake_unless : Bool → EventLoop A S → EventLoop A S
  wake_unless in_loop_thread e =
      if not in_loop_thread then record e { to_wake = e.to_wake + 1 } else e

  -- `QueueInLoop`, whose `Wakeup` is a step of its own.
  unfoldable pub queue_in_loop : Bool → A → EventLoop A S → EventLoop A S
  queue_in_loop in_loop_thread cb e =
      let task : Task A = record { in_loop_thread = in_loop_thread; functor = cb } in
      wake_unless in_loop_thread (record e {
        pending_functors = e.pending_functors ++ task ∷ [];
        queued = e.queued ++ task ∷ [];
      })

  unfoldable pub run_in_loop : Bool → A → EventLoop A S → EventLoop A S
  run_in_loop in_loop_thread cb e =
      if in_loop_thread
      then record e { run_at_once = e.run_at_once ++ cb ∷ [] }
      else queue_in_loop in_loop_thread cb e

  unfoldable pub quit_loop : Bool → EventLoop A S → EventLoop A S
  quit_loop in_loop_thread e = wake_unless in_loop_thread (record e { quit = true })

  -- The test of the `while`.
  unfoldable pub next_round : EventLoop A S → EventLoop A S
  next_round e = record e { phase = if not e.quit then polling else stopped }

  -- `functors.swap(pendingFunctors_)`.
  unfoldable pub swap_functors : EventLoop A S → EventLoop A S
  swap_functors e = record e { phase = running e.pending_functors; pending_functors = [] }

  -- The next task, or the next round.
  unfoldable pub run_functor : EventLoop A S → List (Task A) → EventLoop A S
  run_functor e [] = next_round e
  run_functor e (task ∷ tasks) = record e {
    phase = running tasks;
    executed = e.executed ++ task ∷ [];
  }

-- Is the thread of the loop in a callback or a task?
unfoldable pub is_busy {ℓ} : {A : Type ℓ} → Phase A → Bool
is_busy polling = false
is_busy (handling unread) = true
is_busy (running tasks) = true
is_busy stopped = false

module _ {ℓ κ} {A : Type ℓ} {S : Type κ} (fd : Eventfd S) where
  unfoldable pub wakeup : EventLoop A S → EventLoop A S
  wakeup e = record e { eventfd = fd.write e.eventfd; to_wake = e.to_wake - 1 }

  unfoldable pub handle_eventfd_read : EventLoop A S → EventLoop A S
  handle_eventfd_read e = record e { eventfd = fd.read e.eventfd; phase = handling false }

  -- What the loop does next by itself, where it stands; `reported` is whether a poll reports the
  -- eventfd.
  unfoldable pub advance_from : Bool → EventLoop A S → Phase A → EventLoop A S
  advance_from reported e polling = record e { phase = handling reported }
  advance_from reported e (handling unread) =
      if unread then handle_eventfd_read e else swap_functors e
  advance_from reported e (running tasks) = run_functor e tasks
  advance_from reported e stopped = e

  unfoldable pub advance : Bool → EventLoop A S → EventLoop A S
  advance reported e = advance_from reported e e.phase

-- What can happen next: the loop goes on, a thread calls an operation, or one that did writes to
-- the eventfd. The thread of the loop calls from a callback or a task only.
pub data Event {ℓ} (A : Type ℓ) : Type ℓ where
  advances : Bool → Event A
  queues runs : Bool → A → Event A
  quits : Bool → Event A
  wakes : Event A

module _ {ℓ κ} {A : Type ℓ} {S : Type κ} (fd : Eventfd S) where
  unfoldable pub step : EventLoop A S → Event A → EventLoop A S
  step e (advances reported) = advance fd reported e
  step e (queues own cb) = if is_busy e.phase || not own then queue_in_loop own cb e else e
  step e (runs own cb) = if is_busy e.phase || not own then run_in_loop own cb e else e
  step e (quits own) = if is_busy e.phase || not own then quit_loop own e else e
  step e wakes = if ltb 0 e.to_wake then wakeup fd e else e

  unfoldable pub run : EventLoop A S → List (Event A) → EventLoop A S
  run e [] = e
  run e (event ∷ events) = run (step e event) events
