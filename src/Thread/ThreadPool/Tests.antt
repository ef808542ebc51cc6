-- ===== src/Thread/ThreadPool/Tests.antt =====
-- A bounded pool whose caller has to wait, and that stops.
use wethands.Prelude.{ℕ, ◌≡◌, refl, List, [], ◌∷◌}
use wethands.Prelude.Int.{pos}
use wethands.Thread.Condition.{wait, notify, notify_all, resume}
use wethands.Thread.ThreadPool.{
  start, stop, queue_is_full, put, run, take_from, take, Event, calls_run, calls_take, resumes_run,
  stops, step, run_events,
}
use wethands.Thread.ThreadPool.Invariant.{IsGood}
use wethands.Thread.ThreadPool.Run.{run_started-IsGood}

abbrev schedule : List (Event ℕ)
schedule = calls_run 1 ∷ calls_run 2 ∷ calls_take ∷ resumes_run 2 ∷ stops ∷ calls_run 3 ∷ []

run_events-given_up : (run_events (start (pos 1) 2) schedule).given_up ≡ 3 ∷ []
unfolding run_events step run put queue_is_full take take_from start stop wait notify notify_all
    resume
run_events-given_up = refl

run_started-IsGood_example : IsGood (run_events (start (pos 1) 2) schedule)
run_started-IsGood_example = run_started-IsGood (pos 1) 2 schedule
