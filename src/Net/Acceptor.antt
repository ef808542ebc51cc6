-- ===== src/Net/Acceptor.antt =====
-- src/net/Acceptor.h and Acceptor.cc: a socket that listens, and what happens when it is readable.
-- A placeholder descriptor is given up to turn a connection away when no descriptor is left.
pub mod Descriptors
mod Tests
use wethands.Prelude.{
  ℕ, Bool, true, false, Option, none, some, List, [], ◌∷◌, ◌++◌, Result, ok, fault, aborted,
  require, assert, if◌then◌else◌, ◌>>=◌, ◌>>◌,
}
use wethands.Reactor.Channel.{Channel, new_channel, enable_reading, disable_all, remove_from_poller}
use wethands.Net.InetAddress.{InetAddress}
use wethands.Net.Socket.{
  AcceptResult, accepted, refused, AcceptErrno, emfile, accept, bind_socket, listen_socket,
  create_socket_fd, close_fd,
}

pub record Acceptor : Type 0 where
  pub listening : Bool
  pub listen_fd : ℕ
  pub listen_socket_channel : Channel
  pub has_new_connection_callback : Bool
  -- `none` is -1, when open(2) failed.
  pub placeholder_fd : Option ℕ
  -- The descriptors that this code closed, and those that it handed to the callback, with the
  -- addresses of their peers.
  pub closed : List ℕ
  pub handed : List (ℕ × InetAddress)

-- The answers of socket(2), bind(2) and open(2).
unfoldable pub new_acceptor : Option ℕ → Bool → Option ℕ → Result Acceptor
new_acceptor socket_answer bind_succeeds placeholder = do
  fd ← create_socket_fd socket_answer
  bind_socket bind_succeeds
  ok (record {
    listening = false;
    listen_fd = fd;
    listen_socket_channel = new_channel;
    has_new_connection_callback = false;
    placeholder_fd = placeholder;
    closed = [];
    handed = [];
  })

unfoldable pub set_new_connection_callback : Acceptor → Acceptor
set_new_connection_callback a = record a { has_new_connection_callback = true }

unfoldable pub listen : Bool → Bool → Acceptor → Result Acceptor
listen in_loop listen_succeeds a = do
  assert in_loop
  listen_socket listen_succeeds
  ok (record a { listen_socket_channel = enable_reading a.listen_socket_channel; listening = true })

-- `Socket::CloseFd`.
unfoldable pub close : Option ℕ → Acceptor → Result Acceptor
close fd a = do
  close_fd fd
  ok (record a { closed = (elim fd [ none ↦ a.closed | some n ↦ a.closed ++ n ∷ [] ]) })

-- A new connection: the callback takes its socket, or the socket is closed as it leaves the scope.
unfoldable pub hand_over : ℕ → InetAddress → Acceptor → Result Acceptor
hand_over fd client_addr a =
    if a.has_new_connection_callback
    then ok (record a { handed = a.handed ++ (fd, client_addr) ∷ [] })
    else close (some fd) a

-- No descriptor is left: the placeholder gives its own up for the connection that waits, which is
-- closed at once. `second` is what accept(2) answers and `opened` what open(2) answers then; `none`
-- is -1.
unfoldable pub turn_away : Option ℕ → Option ℕ → Acceptor → Result Acceptor
turn_away second opened a = do
  freed ← close a.placeholder_fd a
  let holding : Acceptor = record freed { placeholder_fd = second }
  dropped ← close holding.placeholder_fd holding
  ok (record dropped { placeholder_fd = opened })

unfoldable pub is_emfile : AcceptErrno → Bool
is_emfile emfile = true
is_emfile _ = false

unfoldable pub handle_read : Bool → AcceptResult → Option ℕ → Option ℕ → Acceptor → Result Acceptor
handle_read in_loop answer second opened a = do
  assert in_loop
  connfd ← accept answer
  elim connfd [
    | accepted fd client_addr ↦ hand_over fd client_addr a
    | refused e ↦ if is_emfile e then turn_away second opened a else ok a
  ]

-- The destructor, with that of the listening socket.
unfoldable pub destroy_acceptor : Acceptor → Result Acceptor
destroy_acceptor a = do
  gone ← remove_from_poller (disable_all a.listen_socket_channel)
  freed ← close a.placeholder_fd (record a { listen_socket_channel = gone })
  close (some freed.listen_fd) freed
