-- ===== src/Thread/CountDownLatch/Tests.antt =====
-- A thread that waits for two others.
use wethands.Prelude.{◌≡◌, refl, List, [], ◌∷◌}
use wethands.Prelude.Int.{pos}
use wethands.Thread.Condition.{wait, notify_all, resume}
use wethands.Thread.CountDownLatch.{
  new_count_down_latch, count_down, wait_latch, Event, counts_down, calls_wait, resumes_wait, step,
  run,
}
use wethands.Thread.CountDownLatch.Invariant.{IsFair, run_latch-IsFair}

abbrev schedule : List Event
schedule = calls_wait ∷ counts_down ∷ counts_down ∷ resumes_wait ∷ counts_down ∷ []

run-passed : (run (new_count_down_latch (pos 2)) schedule).passed ≡ 1
unfolding run step new_count_down_latch count_down wait_latch wait notify_all resume
run-passed = refl

run_latch-IsFair_example : IsFair (run (new_count_down_latch (pos 2)) schedule)
run_latch-IsFair_example = run_latch-IsFair (pos 2) schedule
