-- ===== src/Net/TcpServer.antt =====
-- src/net/TcpServer.h and TcpServer.cc: the connections of a server and the loops that serve them.
-- A loop is a number, 0 the server's own; `pending` has what each loop was given to run, the oldest
-- first. A connection is a number too, its place among all that were ever made, and
-- `TcpConnection.pending` is not used here. `RunInLoop` runs a task at once in the thread of its
-- loop, and queues it otherwise, as in src/reactor/EventLoop.cc.
pub mod Names
pub mod Table
pub mod Queue
pub mod Stages
pub mod Lifecycle
pub mod Operations
pub mod Accept
pub mod Schedule
pub mod Start
mod Tests
use wethands.Prelude.{
  ℕ, zero, suc, ◌+◌, Bool, true, false, not, ◌||◌, Option, none, some, List, [], ◌∷◌, ◌++◌, ◌==◌,
  length, get_elem?, set, if◌then◌else◌, Result, ok, fault, bad_access, require, assert, ◌>>=◌,
  ◌>>◌,
}
use wethands.Prelude.Decimal.{decimal}
use wethands.Reactor.EventLoopThreadPool.{
  EventLoopThreadPool, new_event_loop_thread_pool, start, next_loop,
}
use wethands.Net.HttpRequest.{is_equal}
use wethands.Net.Acceptor.{Acceptor, listen, set_new_connection_callback}
use wethands.Net.TcpConnection.{
  TcpConnection, connected, disconnecting, is_state, new_tcp_connection, connection_established,
  connection_destroyed, handle_close, shutdown,
}

pub data Task : Type 0 where
  establish remove destroy : ℕ → Task

-- A connection with its name and its loop.
pub record Served : Type 0 where
  pub name : List ℕ
  pub io_loop : ℕ
  pub conn : TcpConnection

pub record TcpServer : Type 0 where
  pub acceptor : Acceptor
  pub thread_pool : EventLoopThreadPool ℕ
  pub started : Bool
  pub conn_count : ℕ
  -- Is the user's write-complete callback set?
  pub has_write_complete_callback : Bool
  -- `connections_`, from names to connections, in the order in which they came.
  pub connections : List (List ℕ × ℕ)
  -- Every connection that was made.
  pub objects : List Served
  -- The tasks that the loops have yet to run, each with its loop.
  pub pending : List (ℕ × Task)

unfoldable pub new_tcp_server : Acceptor → TcpServer
new_tcp_server acceptor = record {
  acceptor = set_new_connection_callback acceptor;
  thread_pool = new_event_loop_thread_pool 0;
  started = false;
  conn_count = 0;
  has_write_complete_callback = false;
  connections = [];
  objects = [];
  pending = [];
}

-- `Start`. The loop of the thread number `i` is `i + 1`.
unfoldable pub start_server : Bool → Bool → ℕ → Bool → TcpServer → Result TcpServer
start_server in_loop listen_succeeds num_threads has_callback s = do
  assert in_loop
  if s.started then ok s else (do
    pool ← start in_loop (λ i. i + 1) num_threads has_callback s.thread_pool
    acceptor ← listen in_loop listen_succeeds s.acceptor
    ok (record s { thread_pool = pool; acceptor = acceptor }))

-- "<peer>#<count>".
unfoldable pub connection_name : List ℕ → ℕ → List ℕ
connection_name peer count = peer ++ 35 ∷ decimal count

-- `connections_[name] = conn`.
unfoldable pub assign : List ℕ → ℕ → List (List ℕ × ℕ) → List (List ℕ × ℕ)
assign name conn [] = (name, conn) ∷ []
assign name conn ((key, value) ∷ entries) =
    if is_equal key name then (key, conn) ∷ entries else (key, value) ∷ assign name conn entries

-- `connections_.erase(name)`.
unfoldable pub erase : List ℕ → List (List ℕ × ℕ) → List (List ℕ × ℕ)
erase name [] = []
erase name ((key, value) ∷ entries) =
    let rest = erase name entries in if is_equal key name then rest else (key, value) ∷ rest

-- The connection behind a pointer.
unfoldable pub object : TcpServer → ℕ → Result Served
object s i = elim (get_elem? s.objects i) [ none ↦ fault bad_access | some o ↦ ok o ]

unfoldable pub put_conn : TcpServer → ℕ → Served → TcpConnection → TcpServer
put_conn s i o conn = record s { objects = set s.objects i (record o { conn = conn }) }

-- `ConnectionEstablished` and `ConnectionDestroyed`, which assert that they run in the loop of the
-- connection.
unfoldable pub establish_connection : ℕ → ℕ → TcpServer → Result TcpServer
establish_connection this_loop i s = do
  o ← object s i
  assert (this_loop == o.io_loop)
  conn ← connection_established o.conn
  ok (put_conn s i o conn)

unfoldable pub destroy_connection : ℕ → ℕ → TcpServer → Result TcpServer
destroy_connection this_loop i s = do
  o ← object s i
  assert (this_loop == o.io_loop)
  conn ← connection_destroyed o.conn
  ok (put_conn s i o conn)

-- `RunInLoop` of the loop `target`, called in the thread of `this_loop`; `now` is the task run at
-- once.
unfoldable pub run_in_loop :
    ℕ → ℕ → Task → (TcpServer → Result TcpServer) → TcpServer → Result TcpServer
run_in_loop this_loop target task now s =
    if this_loop == target
    then now s
    else ok (record s { pending = s.pending ++ (target, task) ∷ [] })

unfoldable pub remove_connection_in_loop : ℕ → ℕ → TcpServer → Result TcpServer
remove_connection_in_loop this_loop i s = do
  assert (this_loop == 0)
  o ← object s i
  run_in_loop this_loop o.io_loop (destroy i) (destroy_connection this_loop i)
      (record s { connections = erase o.name s.connections })

unfoldable pub remove_connection : ℕ → ℕ → TcpServer → Result TcpServer
remove_connection this_loop i s =
    run_in_loop this_loop 0 (remove i) (remove_connection_in_loop this_loop i) s

-- `NewConnection`, which the acceptor calls; `peer` is the text of the peer's address.
unfoldable pub new_connection : Bool → List ℕ → TcpServer → Result TcpServer
new_connection in_loop peer s = do
  assert in_loop
  (io_loop, pool) ← next_loop in_loop s.thread_pool
  conn ← new_tcp_connection s.has_write_complete_callback true false
  let i : ℕ = length s.objects
  let name : List ℕ = connection_name peer (s.conn_count + 1)
  run_in_loop 0 io_loop (establish i) (establish_connection 0 i) (record s {
    thread_pool = pool;
    conn_count = s.conn_count + 1;
    connections = assign name i s.connections;
    objects = s.objects ++ (record { name = name; io_loop = io_loop; conn = conn }) ∷ [];
  })

-- The loop of a connection runs its `HandleClose`, whose close callback is `RemoveConnection`.
unfoldable pub close_connection : ℕ → TcpServer → Result TcpServer
close_connection i s = do
  o ← object s i
  conn ← handle_close o.conn
  remove_connection o.io_loop i (put_conn s i o conn)

unfoldable pub run_task : ℕ → Task → TcpServer → Result TcpServer
run_task this_loop (establish i) s = establish_connection this_loop i s
run_task this_loop (remove i) s = remove_connection_in_loop this_loop i s
run_task this_loop (destroy i) s = destroy_connection this_loop i s

-- The oldest task of a loop, and the other tasks.
unfoldable pub take_task : ℕ → List (ℕ × Task) → Option (Task × List (ℕ × Task))
take_task this_loop [] = none
take_task this_loop ((l, task) ∷ tasks) =
    let later = take_task this_loop tasks in
    if l == this_loop
    then some (task, tasks)
    else elim later [ none ↦ none | some found ↦ some (found.0, (l, task) ∷ found.1) ]

-- The destructor hands the end of every connection in the table to its loop.
unfoldable pub destroy_all : List (List ℕ × ℕ) → TcpServer → Result TcpServer
destroy_all [] s = ok s
destroy_all ((name, i) ∷ entries) s = do
  o ← object s i
  s' ← run_in_loop 0 o.io_loop (destroy i) (destroy_connection 0 i) s
  destroy_all entries s'

unfoldable pub destroy_server : Bool → TcpServer → Result TcpServer
destroy_server in_loop s = do assert in_loop; destroy_all s.connections s

-- What can happen: a connection is accepted, the poller reports the end of one to its loop, its user
-- shuts it down in its loop, or a loop runs its oldest task.
pub data Event : Type 0 where
  accepts : List ℕ → Event
  closes shuts_down runs : ℕ → Event

unfoldable pub is_open : TcpConnection → Bool
is_open c = is_state c.state connected || is_state c.state disconnecting

unfoldable pub step : TcpServer → Event → Result TcpServer
step s (accepts peer) = new_connection true peer s
-- The poller reports the end of a channel from its registration on until it is removed.
step s (closes i) = elim (get_elem? s.objects i) [
  | none ↦ ok s
  | some o ↦ if o.conn.socket_channel.registered_to_poller then close_connection i s else ok s
]
step s (shuts_down i) = elim (get_elem? s.objects i) [
  | none ↦ ok s
  | some o ↦ ok (put_conn s i o (shutdown true o.conn))
]
step s (runs l) = elim (take_task l s.pending) [
  | none ↦ ok s
  | some (task, rest) ↦ run_task l task (record s { pending = rest })
]

unfoldable pub run : TcpServer → List Event → Result TcpServer
run s [] = ok s
run s (e ∷ es) = step s e >>= λ s'. run s' es
