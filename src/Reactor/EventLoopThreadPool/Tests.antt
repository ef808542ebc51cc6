-- ===== src/Reactor/EventLoopThreadPool/Tests.antt =====
-- A pool of three threads, and one of none.
use wethands.Prelude.{◌+◌, ◌≡◌, refl, true, false, [], ◌∷◌, ok, ◌>>=◌}
use wethands.Reactor.EventLoopThreadPool.{
  new_event_loop_thread_pool, start_loops, start, take_loop, next_loop, next_loops,
}
use wethands.Reactor.EventLoopThreadPool.RoundRobin.{turns, next_loops-eq-turns}

five_calls :
    (start true (λ i. i + 1) 3 false (new_event_loop_thread_pool 0) >>= next_loops 5)
    ≡ ok (1 ∷ 2 ∷ 3 ∷ 1 ∷ 2 ∷ [])
unfolding start start_loops new_event_loop_thread_pool next_loops next_loop take_loop
five_calls = refl

next_loops-eq-turns_example :
    (start true (λ i. i + 1) 3 true (new_event_loop_thread_pool 0) >>= next_loops 5)
    ≡ ok (turns 0 (λ i. i + 1) 3 0 5)
next_loops-eq-turns_example = next_loops-eq-turns (λ i. i + 1) 0 3 5 true
