-- ===== src/Utils/BlockingQueue/Tests.antt =====
-- A consumer that has to wait.
use wethands.Prelude.{ℕ, ◌≡◌, refl, List, [], ◌∷◌}
use wethands.Thread.Condition.{wait, notify, resume}
use wethands.Utils.BlockingQueue.{
  new_blocking_queue, put, take_from, take, Event, calls_put, calls_take, resumes_take, step, run,
}
use wethands.Utils.BlockingQueue.Invariant.{IsFifo, run_new-IsFifo}

abbrev schedule : List (Event ℕ)
schedule = calls_take ∷ calls_put 1 ∷ calls_put 2 ∷ resumes_take ∷ []

run-taken_log : (run new_blocking_queue schedule).taken_log ≡ 1 ∷ []
unfolding run step put take take_from new_blocking_queue wait notify resume
run-taken_log = refl

run_new-IsFifo_example : IsFifo (run new_blocking_queue schedule)
run_new-IsFifo_example = run_new-IsFifo schedule
