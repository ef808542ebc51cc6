-- ===== src/Reactor/EventLoopThread/Tests.antt =====
-- A thread that is started, with a wakeup that nobody asked for while its creator sleeps.
use wethands.Prelude.{◌≡◌, true, some, List, [], ◌∷◌, ◌++◌, Returns, arith}
use wethands.Reactor.EventLoopThread.{
  returned, Event, parent_goes_on, child_goes_on, wakes_thread_latch, run, new_event_loop_thread,
}
use wethands.Reactor.EventLoopThread.Handshake.{IsSound}
use wethands.Reactor.EventLoopThread.Returned.{run_thread-IsSound}
use wethands.Reactor.EventLoopThread.Live.{to_the_end, run_thread-returns}

abbrev events : List Event
events =
    parent_goes_on ∷ parent_goes_on ∷ wakes_thread_latch ∷ child_goes_on ∷ parent_goes_on
    ∷ child_goes_on ∷ parent_goes_on ∷ []

run_thread-IsSound_example :
    Returns (run true 7 1000 (new_event_loop_thread true [] 1) events) (IsSound 7 1000)
run_thread-IsSound_example = run_thread-IsSound 7 1000 (omega arith) true [] 1 events

run_thread-returns_example :
    Returns
      (run true 7 1000 (new_event_loop_thread true [] 1) (events ++ to_the_end))
      (λ t. (t.parent ≡ returned) × (t.result ≡ some 1000))
run_thread-returns_example = run_thread-returns 7 1000 (omega arith) true [] 1 events
