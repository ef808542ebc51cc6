-- ===== src/Net/TcpServer/Start.antt =====
-- The start of a server, and its end while connections are open.
use wethands.Prelude.{
  ℕ, ◌≡◌, Bool, true, false, some, List, ◌∷◌, get_elem?, ok, fault, assert_failed, arith,
}
use wethands.Reactor.EventLoopThreadPool.{start}
use wethands.Net.Acceptor.{listen}
use wethands.Net.TcpConnection.{disconnected, is_state, connection_destroyed}
use wethands.Net.TcpServer.{
  TcpServer, Served, object, run_in_loop, destroy_connection, destroy_all, destroy_server,
  start_server,
}

-- A second `Start` of a server that was started fails an assertion, with whatever threads: nothing
-- sets `started_`, so that its test never returns early.
pub start_server-again :
    (listens listens_again : Bool) (num_threads more : ℕ) (has_callback : Bool) (s s' : TcpServer)
    → s.started ≡ false
    → start_server true listens num_threads has_callback s ≡ ok s'
    → start_server true listens_again more has_callback s' ≡ fault assert_failed
unfolding start_server start listen
start_server-again listens listens_again num_threads more has_callback s s' fresh h = ground arith

-- While a connection that the server's own loop serves is not closed and stands first in the
-- table, the destructor of the server fails the assertion of `ConnectionDestroyed`.
pub destroy_server-open :
    (s : TcpServer) (name : List ℕ) (i : ℕ) (entries : List (List ℕ × ℕ)) (o : Served)
    → s.connections ≡ (name, i) ∷ entries
    → get_elem? s.objects i ≡ some o
    → o.io_loop ≡ 0
    → is_state o.conn.state disconnected ≡ false
    → destroy_server true s ≡ fault assert_failed
unfolding destroy_server destroy_all object run_in_loop destroy_connection connection_destroyed
destroy_server-open s name i entries o first found own open_ =
    ground (arith, first, found, own, open_)
