-- ===== src/Reactor/EventLoop/Wakeups.antt =====
-- That a loop which sleeps in its poll is woken for the tasks and the end that others ask for.
use wethands.Prelude.{
  ◌+◌, ◌-◌, ◌≡◌, refl, sym, ap, Bool, true, false, not, ◌&&◌, ◌||◌, List, [], ◌∷◌, ◌++◌, ltb,
  if_lem, arith,
}
use wethands.Reactor.EventLoop.{
  Eventfd, Task, Phase, polling, handling, running, stopped, EventLoop, Event, advances, queues,
  runs, quits, wakes, new_event_loop, wake_unless, queue_in_loop, run_in_loop, quit_loop,
  next_round, swap_functors, run_functor, is_busy, wakeup, handle_eventfd_read, advance_from,
  advance, step, run,
}

-- Is there a task that another thread queued?
unfoldable pub has_foreign {ℓ} : {A : Type ℓ} → List (Task A) → Bool
has_foreign [] = false
has_foreign (task ∷ tasks) = not task.in_loop_thread || has_foreign tasks

-- Past the point where a round takes out what is pending.
unfoldable pub has_taken {ℓ} : {A : Type ℓ} → Phase A → Bool
has_taken polling = true
has_taken (handling unread) = false
has_taken (running tasks) = true
has_taken stopped = false

unfoldable pub is_polling {ℓ} : {A : Type ℓ} → Phase A → Bool
is_polling polling = true
is_polling (handling unread) = false
is_polling (running tasks) = false
is_polling stopped = false

has_foreign-append {ℓ} :
    {A : Type ℓ} (tasks : List (Task A)) (task : Task A)
    → has_foreign (tasks ++ task ∷ []) ≡ has_foreign tasks || not task.in_loop_thread
unfolding has_foreign
has_foreign-append [] task = ground arith
has_foreign-append (first ∷ tasks) task = ground (arith, has_foreign-append tasks task)

module _ {ℓ κ} {A : Type ℓ} {S : Type κ} (fd : Eventfd S) where
  -- The eventfd is readable, or a thread is about to write to it.
  abbrev pub is_signalled : EventLoop A S → Bool
  is_signalled e = fd.is_readable e.eventfd || ltb 0 e.to_wake

  -- While the loop polls, it is signalled for a task of another thread and for an end that was asked
  -- for; for the task already from when it has taken out what is pending.
  pub record IsAwakeAt (e : EventLoop A S) (phase : Phase A) : Type 0 where
    pub for_task : has_taken phase && has_foreign e.pending_functors ≡ true → is_signalled e ≡ true
    pub for_quit : is_polling phase && e.quit ≡ true → is_signalled e ≡ true

  abbrev pub IsAwake : EventLoop A S → Type 0
  IsAwake e = IsAwakeAt e e.phase

  wake_unless-IsAwake :
      (own : Bool) (e : EventLoop A S) → (own ≡ true → IsAwake e) → IsAwake (wake_unless own e)
  unfolding wake_unless
  wake_unless-IsAwake true e h = h refl
  wake_unless-IsAwake false e h =
      let called : fd.is_readable e.eventfd || ltb 0 (e.to_wake + 1) ≡ true = ground arith in
      record { for_task = λ waits. called; for_quit = λ waits. called }

  queue_in_loop-IsAwake :
      (own : Bool) (cb : A) (e : EventLoop A S) → IsAwake e → IsAwake (queue_in_loop own cb e)
  unfolding queue_in_loop
  queue_in_loop-IsAwake own cb e h =
      let task : Task A = record { in_loop_thread = own; functor = cb } in
      wake_unless-IsAwake own _ (λ same. record {
        for_task = λ waits.
            h.for_task (ground (arith, waits, same, has_foreign-append e.pending_functors task));
        for_quit = h.for_quit;
      })

  run_in_loop-IsAwake :
      (own : Bool) (cb : A) (e : EventLoop A S) → IsAwake e → IsAwake (run_in_loop own cb e)
  unfolding run_in_loop
  run_in_loop-IsAwake own cb e h =
      if_lem IsAwake own _ _ (λ same. record { for_task = h.for_task; for_quit = h.for_quit })
        (λ other. queue_in_loop-IsAwake own cb e h)

  is_busy-is_polling : (phase : Phase A) → is_busy phase ≡ true → is_polling phase ≡ false
  unfolding is_busy is_polling
  is_busy-is_polling polling busy = sym busy
  is_busy-is_polling (handling unread) busy = refl
  is_busy-is_polling (running tasks) busy = refl
  is_busy-is_polling stopped busy = refl

  quit_loop-IsAwake :
      (own : Bool) (e : EventLoop A S)
      → is_busy e.phase || not own ≡ true
      → IsAwake e
      → IsAwake (quit_loop own e)
  unfolding quit_loop
  quit_loop-IsAwake own e may h = wake_unless-IsAwake own _ (λ same. record {
    for_task = h.for_task;
    for_quit = λ waits.
        absurd (ground (arith, waits, is_busy-is_polling e.phase (ground (arith, may, same))));
  })

  advance_from-IsAwake :
      (reported : Bool) (e : EventLoop A S) (phase : Phase A)
      → e.phase ≡ phase
      → IsAwakeAt e phase
      → IsAwake (advance_from fd reported e phase)
  unfolding advance_from handle_eventfd_read swap_functors run_functor next_round has_taken
      is_polling has_foreign
  advance_from-IsAwake reported e polling at h = record {
    for_task = λ no. absurd (cc no);
    for_quit = λ no. absurd (cc no);
  }
  advance_from-IsAwake reported e (handling true) at h = record {
    for_task = λ no. absurd (cc no);
    for_quit = λ no. absurd (cc no);
  }
  advance_from-IsAwake reported e (handling false) at h = record {
    for_task = λ no. absurd (cc no);
    for_quit = λ no. absurd (cc no);
  }
  advance_from-IsAwake reported e (running []) at h =
      if_lem (IsAwakeAt (next_round e)) (not e.quit) _ _
        (λ goes. record {
          for_task = h.for_task;
          for_quit = λ no. absurd (ground (arith, goes, no));
        })
        (λ ends. record { for_task = λ no. absurd (cc no); for_quit = λ no. absurd (cc no) })
  advance_from-IsAwake reported e (running (task ∷ tasks)) at h = record {
    for_task = h.for_task;
    for_quit = λ no. absurd (cc no);
  }
  advance_from-IsAwake reported e stopped at h =
      rw at record { for_task = λ no. absurd (cc no); for_quit = λ no. absurd (cc no) }

  step-IsAwake : (e : EventLoop A S) (event : Event A) → IsAwake e → IsAwake (step fd e event)
  unfolding step advance wakeup
  step-IsAwake e (advances reported) h = advance_from-IsAwake reported e e.phase refl h
  step-IsAwake e (queues own cb) h =
      if_lem IsAwake (is_busy e.phase || not own) _ _ (λ may. queue_in_loop-IsAwake own cb e h)
        (λ may_not. h)
  step-IsAwake e (runs own cb) h =
      if_lem IsAwake (is_busy e.phase || not own) _ _ (λ may. run_in_loop-IsAwake own cb e h)
        (λ may_not. h)
  step-IsAwake e (quits own) h =
      if_lem IsAwake (is_busy e.phase || not own) _ _ (λ may. quit_loop-IsAwake own e may h)
        (λ may_not. h)
  step-IsAwake e wakes h =
      let woken : fd.is_readable (fd.write e.eventfd) || ltb 0 (e.to_wake - 1) ≡ true =
        ap (λ b. b || ltb 0 (e.to_wake - 1)) (fd.readable_once_written e.eventfd) in
      if_lem IsAwake (ltb 0 e.to_wake) _ _
        (λ late. record { for_task = λ waits. woken; for_quit = λ waits. woken }) (λ none_left. h)

  run-IsAwake :
      (e : EventLoop A S) (events : List (Event A)) → IsAwake e → IsAwake (run fd e events)
  unfolding run
  run-IsAwake e [] h = h
  run-IsAwake e (event ∷ events) h = run-IsAwake (step fd e event) events (step-IsAwake e event h)

  -- No wakeup is lost, whatever the schedule: while the loop is in its poll and another thread has
  -- queued a task that is still pending, or any thread has ended the loop, the eventfd is readable
  -- or a thread is about to write to it.
  pub run_loop-IsAwake :
      (eventfd : S) (events : List (Event A)) → IsAwake (run fd (new_event_loop eventfd) events)
  unfolding new_event_loop has_taken is_polling has_foreign
  run_loop-IsAwake eventfd events =
      run-IsAwake (new_event_loop eventfd) events
        record { for_task = λ no. absurd (cc no); for_quit = λ no. absurd (cc no) }
