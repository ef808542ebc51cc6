-- ===== src/Net/TcpConnection/Delivery.antt =====
-- Under any schedule the stream is exactly what was accepted, and the write side stays open.
use wethands.Prelude.{ℕ, ◌≡◌, false, List, [], ◌∷◌, ◌++◌}
use wethands.Reactor.Channel.{disable_all}
use wethands.Net.TcpConnection.{TcpConnection, disconnected, note, close_callback}
use wethands.Net.TcpConnection.Schedule.{Turn, Good}
use wethands.Net.TcpConnection.Stream.{stream, IsWrite, NotFatal}

abbrev StepsTo : ℕ → TcpConnection → List ℕ → TcpConnection → Type 0
StepsTo budget c bytes c' = Good budget c' × (stream c' ≡ stream c ++ bytes)

closed : TcpConnection → TcpConnection
closed c =
    note (record c { socket_channel = disable_all c.socket_channel; state = disconnected })
      close_callback

-- The stream grew by `bytes`, and the write side is open.
abbrev pub Delivered : TcpConnection → List ℕ → TcpConnection → Type 0
Delivered c bytes c' = (stream c' ≡ stream c ++ bytes) × (c'.write_shut ≡ false)

-- Every write(2) of a schedule takes no more than it is given, and fails in no way that ends the
-- process.
abbrev pub AreWrites : List Turn → Type 0
AreWrites [] = Unit
AreWrites ((write, e) ∷ turns) = (IsWrite write × NotFatal write) × AreWrites turns
