-- ===== src/Net/TcpClient.antt =====
-- src/net/TcpClient.h and TcpClient.cc: a client in one loop. Its connector makes a connection, of
-- which it has one at a time. A connection is a number, its place among all that were ever made;
-- `none` of `connection` is the null pointer.
pub mod Ended
pub mod Single
pub mod Schedule
mod Tests
use wethands.Prelude.{
  ℕ, ◌+◌, Bool, true, false, not, ◌&&◌, Option, none, some, List, [], ◌∷◌, ◌++◌, length, get_elem?,
  set, if◌then◌else◌, Result, ok, fault, bad_access, null_pointer, ◌>>=◌, ◌>>◌,
}
use wethands.Net.TcpConnection.{
  TcpConnection, new_tcp_connection, connection_established, connection_destroyed, handle_close,
  shutdown,
}
use wethands.Net.Connector
use wethands.Net.Connector.{
  Connector, ConnectResult, new_connector, start_in_loop, restart, stop_now, timer_fires,
}
use wethands.Net.TcpServer.{connection_name}

pub record TcpClient : Type 0 where
  pub connector : Connector
  pub connection : Option ℕ
  pub count : ℕ
  pub retry : Bool
  -- Which callbacks of the user are set.
  pub has_connection_callback : Bool
  pub has_message_callback : Bool
  pub has_write_complete_callback : Bool
  -- Every connection that was made, with its name.
  pub objects : List (List ℕ × TcpConnection)

-- `retry` is what `SetAutoRetry` sets, and the others are set by the functions of their names.
unfoldable pub new_tcp_client : Bool → Bool → Bool → Bool → TcpClient
new_tcp_client retry connection_callback message_callback write_complete_callback = record {
  connector = new_connector;
  connection = none;
  count = 0;
  retry = retry;
  has_connection_callback = connection_callback;
  has_message_callback = message_callback;
  has_write_complete_callback = write_complete_callback;
  objects = [];
}

-- `Connect`; `answer` is what connect(2) tells.
unfoldable pub connect : ConnectResult → TcpClient → Result TcpClient
connect answer c = do
  connector ← start_in_loop answer c.connector
  ok (record c { connector = connector })

-- The connection behind a pointer.
unfoldable pub object : TcpClient → ℕ → Result (List ℕ × TcpConnection)
object c i = elim (get_elem? c.objects i) [ none ↦ fault bad_access | some o ↦ ok o ]

unfoldable pub disconnect : TcpClient → Result TcpClient
disconnect c = elim c.connection [
  | none ↦ fault null_pointer
  | some i ↦ (do
    o ← object c i
    ok (record c { objects = set c.objects i (o.0, shutdown true o.1) }))
]

unfoldable pub stop : TcpClient → Result TcpClient
stop c = do connector ← stop_now c.connector; ok (record c { connector = connector })

-- `NewConnection`; `server` is the text of the server's address.
unfoldable pub new_connection : List ℕ → TcpClient → Result TcpClient
new_connection server c = do
  made ← new_tcp_connection c.has_write_complete_callback c.has_message_callback false
  conn ←
      connection_established (record made { has_connection_callback = c.has_connection_callback })
  ok (record c {
    count = c.count + 1;
    connection = some (length c.objects);
    objects = c.objects ++ (connection_name server (c.count + 1), conn) ∷ [];
  })

-- `HandleClose`; `answer` is what connect(2) tells when the connector starts again.
unfoldable pub handle_close_of : ConnectResult → ℕ → TcpClient → Result TcpClient
handle_close_of answer i c = do
  o ← object c i
  conn ← connection_destroyed o.1
  let dropped : TcpClient = record c { connection = none; objects = set c.objects i (o.0, conn) }
  if dropped.retry
      then (do
        connector ← restart answer dropped.connector
        ok (record dropped { connector = connector }))
      else ok dropped

-- The loop of a connection runs its `HandleClose`, whose close callback is that of the client.
unfoldable pub close_connection : ConnectResult → ℕ → TcpClient → Result TcpClient
close_connection answer i c = do
  o ← object c i
  conn ← handle_close o.1
  handle_close_of answer i (record c { objects = set c.objects i (o.0, conn) })

-- The write event of the connector, whose callback is `NewConnection`.
unfoldable pub connector_writable : List ℕ → Bool → Bool → TcpClient → Result TcpClient
connector_writable server error self c = do
  connector ← Connector.handle_write error self true c.connector
  let c' : TcpClient = record c { connector = connector }
  if not error && not self then new_connection server c' else ok c'

-- What can happen to a client that was told to connect: its connector's channel is writable or its
-- retry timer runs out, the connection is closed, its user disconnects while there is one, or stops
-- the connector.
pub data Event : Type 0 where
  writable : Bool → Bool → Event
  fires closes : ConnectResult → Event
  disconnects stops : Event

unfoldable pub step : List ℕ → TcpClient → Event → Result TcpClient
step server c (writable error self) =
    if c.connector.connecting then connector_writable server error self c else ok c
step server c (fires answer) = elim c.connector.timers [
  | [] ↦ ok c
  | t ∷ ts ↦ (do
    connector ← timer_fires answer t.0 c.connector
    ok (record c { connector = connector }))
]
step server c (closes answer) = elim c.connection [
  | none ↦ ok c
  | some i ↦ close_connection answer i c
]
step server c disconnects = elim c.connection [ none ↦ ok c | some i ↦ disconnect c ]
step server c stops = stop c

unfoldable pub run : List ℕ → TcpClient → List Event → Result TcpClient
run server c [] = ok c
run server c (e ∷ es) = step server c e >>= λ c'. run server c' es
