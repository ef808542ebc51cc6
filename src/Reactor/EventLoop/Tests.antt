-- ===== src/Reactor/EventLoop/Tests.antt =====
-- A loop that another thread gives two tasks, with an eventfd that counts its writes.
use wethands.Prelude.{ℕ, ◌+◌, refl, true, false, List, [], ◌∷◌, ltb, arith}
use wethands.Reactor.EventLoop.{
  Eventfd, Task, polling, EventLoop, Event, advances, queues, quits, wakes, new_event_loop, run,
}
use wethands.Reactor.EventLoop.Tasks.{IsFifo, run_loop-IsFifo}
use wethands.Reactor.EventLoop.Wakeups.{IsAwake, run_loop-IsAwake}
use wethands.Reactor.EventLoop.Round.{RoundOf, turns, round_lem}

counter : Eventfd ℕ
counter = record {
  write = λ n. n + 1;
  read = λ n. 0;
  is_readable = ltb 0;
  readable_once_written = λ n. ground arith;
}

abbrev foreign : ℕ → Task ℕ
foreign n = record { in_loop_thread = false; functor = n }

-- Another thread queues 7, its write wakes the loop, 8 is queued while the loop runs 7, and 7 queues
-- 9 itself; then the loop is ended.
abbrev events : List (Event ℕ)
events =
    queues false 7
    ∷ wakes
    ∷ advances true
    ∷ advances true
    ∷ advances false
    ∷ queues false 8
    ∷ queues true 9
    ∷ advances false
    ∷ quits false
    ∷ []

run_loop-IsFifo_example : IsFifo (run counter (new_event_loop 0) events)
run_loop-IsFifo_example = run_loop-IsFifo counter 0 events

run_loop-IsAwake_example : IsAwake counter (run counter (new_event_loop 0) events)
run_loop-IsAwake_example = run_loop-IsAwake counter 0 events

abbrev waiting : EventLoop ℕ ℕ
waiting = record {
  quit = false;
  eventfd = 1;
  pending_functors = foreign 7 ∷ foreign 8 ∷ [];
  phase = polling;
  to_wake = 0;
  queued = foreign 7 ∷ foreign 8 ∷ [];
  executed = [];
  run_at_once = [];
}

round_lem_example : RoundOf waiting (run counter waiting (turns ℕ 6)) (foreign 7 ∷ foreign 8 ∷ [])
round_lem_example = round_lem counter waiting refl
