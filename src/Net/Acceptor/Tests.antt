-- ===== src/Net/Acceptor/Tests.antt =====
-- An acceptor whose placeholder is 3 has no descriptor left for the connection 9.
use wethands.Prelude.{ℕ, ◌+◌, ◌≡◌, true, some, [], Returns, arith}
use wethands.Reactor.Channel.{new_channel}
use wethands.Net.Socket.{refused, emfile}
use wethands.Net.Acceptor.{Acceptor, handle_read}
use wethands.Net.Acceptor.Descriptors.{accounted, given, handle_read-accounted}

abbrev acceptor : Acceptor
acceptor = record {
  listening = true;
  listen_fd = 2;
  listen_socket_channel = new_channel;
  has_new_connection_callback = true;
  placeholder_fd = some 3;
  closed = [];
  handed = [];
}

handle_read-accounted_example :
    Returns (handle_read true (refused emfile) (some 9) (some 4) acceptor) (λ a'.
      (n : ℕ) → accounted n a' ≡ accounted n acceptor + given n (refused emfile) (some 9) (some 4))
handle_read-accounted_example =
    handle_read-accounted (refused emfile) (some 9) (some 4) acceptor (ground arith, ground arith)
