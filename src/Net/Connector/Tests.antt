-- ===== src/Net/Connector/Tests.antt =====
-- A connector that is refused twice, connects, and is stopped.
use wethands.Prelude.{true, false, List, [], ◌∷◌, Returns, ◌⊎◌, ok}
use wethands.Prelude.Halting.{Halted}
use wethands.Net.Connector.{
  new_connector, in_progress, retry_later, Event, restarts, stops, writable, fires, run,
}
use wethands.Net.Connector.Safety.{IsValid, IsHazard, run-IsValid, new_connector-IsValid}

abbrev schedule : List Event
schedule =
    restarts retry_later
    ∷ fires retry_later
    ∷ fires in_progress
    ∷ writable false false true
    ∷ stops
    ∷ []

run-IsValid_example :
    Returns (run new_connector schedule) IsValid
    ⊎ Halted run (λ later. IsValid) IsHazard (ok new_connector) schedule
run-IsValid_example = run-IsValid new_connector schedule new_connector-IsValid
