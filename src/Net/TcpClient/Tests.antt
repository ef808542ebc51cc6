-- ===== src/Net/TcpClient/Tests.antt =====
-- A client that retries: its first attempt is refused, the second makes a connection, which the
-- peer closes, and the third is refused, and stopped.
use wethands.Prelude.{ℕ, true, false, List, [], ◌∷◌, Returns, ◌⊎◌, ◌>>=◌}
use wethands.Prelude.Halting.{Halted}
use wethands.Net.Connector.{in_progress, retry_later}
use wethands.Net.TcpClient.{
  Event, writable, fires, closes, disconnects, stops, new_tcp_client, connect, run,
}
use wethands.Net.TcpClient.Single.{IsSingle}
use wethands.Net.TcpClient.Schedule.{IsHazard, run_client-IsSingle}

-- "1.2.3.4:5".
abbrev server : List ℕ
server = 49 ∷ 46 ∷ 50 ∷ 46 ∷ 51 ∷ 46 ∷ 52 ∷ 58 ∷ 53 ∷ []

abbrev events : List Event
events = fires in_progress ∷ writable false false ∷ disconnects ∷ closes retry_later ∷ stops ∷ []

run_client-IsSingle_example :
    Returns
      (connect retry_later (new_tcp_client true true true false) >>= λ c. run server c events)
      IsSingle
    ⊎ Halted
        (run server)
        (λ later. IsSingle)
        (IsHazard server)
        (connect retry_later (new_tcp_client true true true false))
        events
run_client-IsSingle_example = run_client-IsSingle server retry_later true true false events
