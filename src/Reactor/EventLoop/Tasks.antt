-- ===== src/Reactor/EventLoop/Tasks.antt =====
-- The order of the tasks that a loop is given.
use mathlib.Core.List.{append_assoc, append-nil}
use wethands.Prelude.{◌≡◌, refl, sym, ap, ◌∙◌, Bool, not, ◌||◌, List, [], ◌∷◌, ◌++◌, ltb, if_lem}
use wethands.Reactor.EventLoop.{
  Eventfd, Task, Phase, EventLoop, Event, new_event_loop, wake_unless, queue_in_loop, run_in_loop,
  quit_loop, next_round, swap_functors, run_functor, polling, handling, running, stopped,
  advance_from, advances, queues, runs, quits, wakes, is_busy, wakeup, handle_eventfd_read, advance,
  step, run,
}

-- The tasks that the loop took out and has yet to run.
unfoldable pub taken_out {ℓ} : {A : Type ℓ} → Phase A → List (Task A)
taken_out polling = []
taken_out (handling unread) = []
taken_out (running tasks) = tasks
taken_out stopped = []

-- What was queued is what was run, what was taken out and what is pending, in this order.
abbrev pub IsFifo {ℓ κ} : {A : Type ℓ} {S : Type κ} → EventLoop A S → Type ℓ
IsFifo e = e.executed ++ taken_out e.phase ++ e.pending_functors ≡ e.queued

module _ {ℓ κ} {A : Type ℓ} {S : Type κ} where
  wake_unless-IsFifo : (own : Bool) (e : EventLoop A S) → IsFifo e → IsFifo (wake_unless own e)
  unfolding wake_unless
  wake_unless-IsFifo own e h = if_lem IsFifo (not own) _ _ (λ other. h) (λ same. h)

  queue_lem :
      (task : Task A) (e : EventLoop A S)
      → IsFifo e
      → e.executed ++ taken_out e.phase ++ (e.pending_functors ++ task ∷ []) ≡ e.queued ++ task ∷ []
  queue_lem task e h =
      sym (append_assoc (e.executed ++ taken_out e.phase) e.pending_functors (task ∷ []))
      ∙ ap (λ tasks. tasks ++ task ∷ []) h

  queue_in_loop-IsFifo :
      (own : Bool) (cb : A) (e : EventLoop A S) → IsFifo e → IsFifo (queue_in_loop own cb e)
  unfolding queue_in_loop
  queue_in_loop-IsFifo own cb e h =
      wake_unless-IsFifo own _ (queue_lem record { in_loop_thread = own; functor = cb } e h)

  run_in_loop-IsFifo :
      (own : Bool) (cb : A) (e : EventLoop A S) → IsFifo e → IsFifo (run_in_loop own cb e)
  unfolding run_in_loop
  run_in_loop-IsFifo own cb e h =
      if_lem IsFifo own _ _ (λ same. h) (λ other. queue_in_loop-IsFifo own cb e h)

  quit_loop-IsFifo : (own : Bool) (e : EventLoop A S) → IsFifo e → IsFifo (quit_loop own e)
  unfolding quit_loop
  quit_loop-IsFifo own e h = wake_unless-IsFifo own _ h

  -- The tasks that are taken out are run one by one.
  run_functor-IsFifo :
      (e : EventLoop A S) (tasks : List (Task A))
      → e.executed ++ tasks ++ e.pending_functors ≡ e.queued
      → IsFifo (run_functor e tasks)
  unfolding run_functor next_round taken_out
  run_functor-IsFifo e [] h =
      if_lem (λ phase. e.executed ++ taken_out phase ++ e.pending_functors ≡ e.queued) (not e.quit)
        _ _ (λ goes. h) (λ ends. h)
  run_functor-IsFifo e (task ∷ tasks) h =
      ap (λ done. done ++ e.pending_functors) (append_assoc e.executed (task ∷ []) tasks) ∙ h

  advance_from-IsFifo :
      (fd : Eventfd S) (reported : Bool) (e : EventLoop A S) (phase : Phase A)
      → e.phase ≡ phase
      → e.executed ++ taken_out phase ++ e.pending_functors ≡ e.queued
      → IsFifo (advance_from fd reported e phase)
  unfolding advance_from handle_eventfd_read swap_functors taken_out
  advance_from-IsFifo fd reported e polling at h = h
  advance_from-IsFifo fd reported e (handling unread) at h =
      if_lem IsFifo unread _ _ (λ reads. h)
        (λ swaps.
          append-nil (e.executed ++ e.pending_functors)
          ∙ (ap (λ done. done ++ e.pending_functors) (sym (append-nil e.executed)))
          ∙ h)
  advance_from-IsFifo fd reported e (running tasks) at h = run_functor-IsFifo e tasks h
  advance_from-IsFifo fd reported e stopped at h = rw at h

  module _ (fd : Eventfd S) where
    step-IsFifo : (e : EventLoop A S) (event : Event A) → IsFifo e → IsFifo (step fd e event)
    unfolding step advance wakeup
    step-IsFifo e (advances reported) h = advance_from-IsFifo fd reported e e.phase refl h
    step-IsFifo e (queues own cb) h =
        if_lem IsFifo (is_busy e.phase || not own) _ _ (λ may. queue_in_loop-IsFifo own cb e h)
          (λ may_not. h)
    step-IsFifo e (runs own cb) h =
        if_lem IsFifo (is_busy e.phase || not own) _ _ (λ may. run_in_loop-IsFifo own cb e h)
          (λ may_not. h)
    step-IsFifo e (quits own) h =
        if_lem IsFifo (is_busy e.phase || not own) _ _ (λ may. quit_loop-IsFifo own e h)
          (λ may_not. h)
    step-IsFifo e wakes h = if_lem IsFifo (ltb 0 e.to_wake) _ _ (λ late. h) (λ none_left. h)

    run-IsFifo : (e : EventLoop A S) (events : List (Event A)) → IsFifo e → IsFifo (run fd e events)
    unfolding run
    run-IsFifo e [] h = h
    run-IsFifo e (event ∷ events) h = run-IsFifo (step fd e event) events (step-IsFifo e event h)

    -- Whatever the schedule of threads that queue tasks, wake the loop and end it: each task that was
    -- queued is run once, or was taken out, or is still pending, all in the order in which they were
    -- queued.
    pub run_loop-IsFifo :
        (eventfd : S) (events : List (Event A)) → IsFifo (run fd (new_event_loop eventfd) events)
    unfolding new_event_loop taken_out
    run_loop-IsFifo eventfd events = run-IsFifo (new_event_loop eventfd) events refl
