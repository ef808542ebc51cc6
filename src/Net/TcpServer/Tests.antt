-- ===== src/Net/TcpServer/Tests.antt =====
-- A server with two threads: a connection is accepted, established in its loop, closed by its peer,
-- taken out of the table and destroyed.
use wethands.Prelude.{
  ◌⊎◌, ℕ, ◌≡◌, refl, true, false, some, List, [], ◌∷◌, ok, fault, assert_failed, Returns, ◌>>=◌,
  arith,
}
use wethands.Prelude.Halting.{Halted}
use wethands.Reactor.Channel.{new_channel, enable_reading, register_to_poller}
use wethands.Net.Acceptor.{Acceptor}
use wethands.Reactor.EventLoopThreadPool.{start, start_loops, new_event_loop_thread_pool}
use wethands.Net.Socket.{listen_socket}
use wethands.Net.Acceptor.{listen, set_new_connection_callback}
use wethands.Net.TcpServer.{
  TcpServer, Event, accepts, closes, shuts_down, runs, new_tcp_server, start_server, run,
  connection_name,
}
use wethands.Net.TcpServer.Start.{start_server-again}
use wethands.Net.TcpServer.Names.{number_of_name, number_of_name-connection_name}
use wethands.Net.TcpServer.Lifecycle.{IsSettled}
use wethands.Net.TcpServer.Schedule.{IsDrained, IsServing, IsHangup, run_server-IsSettled}

abbrev acceptor : Acceptor
acceptor = record {
  listening = false;
  listen_fd = 3;
  listen_socket_channel = new_channel;
  has_new_connection_callback = false;
  placeholder_fd = some 4;
  closed = [];
  handed = [];
}

-- "1.2.3.4:5".
abbrev peer : List ℕ
peer = 49 ∷ 46 ∷ 50 ∷ 46 ∷ 51 ∷ 46 ∷ 52 ∷ 58 ∷ 53 ∷ []

abbrev events : List Event
events =
    accepts peer ∷ runs 1 ∷ accepts peer ∷ closes 0 ∷ runs 0 ∷ runs 2 ∷ runs 1 ∷ shuts_down 1 ∷ []

run_server-IsSettled_example :
    Returns
      (start_server true true 2 false (new_tcp_server acceptor) >>= λ s. run s events)
      (λ s. IsSettled 0 s × (s.pending ≡ [] → IsDrained s))
    ⊎ Halted run IsServing IsHangup
        (start_server true true 2 false (new_tcp_server acceptor))
        events
run_server-IsSettled_example = run_server-IsSettled events 2 false acceptor (omega arith)

number_of_name-connection_name_example : number_of_name (connection_name peer 120) ≡ some 120
number_of_name-connection_name_example = number_of_name-connection_name peer 120 (omega arith)

abbrev one_thread : TcpServer
one_thread = record (new_tcp_server acceptor) {
  thread_pool = record {
    base_loop = 0;
    started = true;
    next = 0;
    loops = 1 ∷ [];
    initialised_here = false;
  };
  acceptor = record acceptor {
    listening = true;
    listen_socket_channel = record { registered_to_poller = true; events = 1; revents = 0 };
    has_new_connection_callback = true;
  };
}

one_thread-started : start_server true true 1 false (new_tcp_server acceptor) ≡ ok one_thread
unfolding start_server start listen new_tcp_server new_event_loop_thread_pool listen_socket
    set_new_connection_callback enable_reading start_loops register_to_poller new_channel
one_thread-started = refl

start_server-again_example : start_server true true 2 false one_thread ≡ fault assert_failed
start_server-again_example =
    start_server-again true true 1 2 false (new_tcp_server acceptor) one_thread
      (unfold new_tcp_server in refl) one_thread-started
