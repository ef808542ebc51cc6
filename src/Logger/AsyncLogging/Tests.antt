-- ===== src/Logger/AsyncLogging/Tests.antt =====
-- A few lines and two rounds of the writer.
use wethands.Prelude.{arith, List, [], ◌∷◌, Returns}
use wethands.Logger.AsyncLogging.{new_async_logging, Event, logs, collects, writes_out, run}
use wethands.Logger.AsyncLogging.Ownership.{IsOwned, run-IsOwned, new_async_logging-IsOwned}
use wethands.Logger.AsyncLogging.Steps.{IsComplete}
use wethands.Logger.AsyncLogging.Complete.{AreShort, logged_by, run_new-IsComplete}

abbrev schedule : List Event
schedule = logs (1 ∷ 2 ∷ []) ∷ collects ∷ logs (3 ∷ []) ∷ writes_out ∷ collects ∷ writes_out ∷ []

run-IsOwned_example : Returns (run new_async_logging schedule) IsOwned
run-IsOwned_example = run-IsOwned new_async_logging schedule new_async_logging-IsOwned

run_new-IsComplete_example :
    Returns (run new_async_logging schedule) (IsComplete (logged_by schedule))
unfolding AreShort logged_by
run_new-IsComplete_example =
    run_new-IsComplete schedule (omega arith, (omega arith, tt)) (omega arith)
