-- ===== src/Net/Socket.antt =====
-- src/net/Socket.h and Socket.cc: the calls on a socket's descriptor. What a system call answers is
-- a parameter; LOG_SYSFATAL ends the process, LOG_SYSERROR only writes a line.
use wethands.Prelude.{
  ℕ, Bool, ◌&&◌, Option, none, some, ◌==◌, Result, ok, fault, aborted, require, ◌>>=◌,
}
use wethands.Net.InetAddress.{InetAddress}

-- The `errno` values that `Accept` tells apart.
pub data AcceptErrno : Type 0 where
  eagain econnaborted eproto eintr emfile other : AcceptErrno

-- The answer of accept4(2): a descriptor with the peer's address, or an error.
pub data AcceptResult : Type 0 where
  accepted : ℕ → InetAddress → AcceptResult
  refused : AcceptErrno → AcceptResult

-- A call whose failure is fatal: `Bind`, `Listen`, `CreateSocketFd` and `CloseFd`.
unfoldable pub bind_socket : Bool → Result (Unit {0})
bind_socket succeeds = require succeeds aborted

unfoldable pub listen_socket : Bool → Result (Unit {0})
listen_socket succeeds = require succeeds aborted

unfoldable pub create_socket_fd : Option ℕ → Result ℕ
create_socket_fd answer = elim answer [ none ↦ fault aborted | some fd ↦ ok fd ]

-- `close` of no descriptor (-1) fails, and so does one of a descriptor that is not open.
unfoldable pub close_fd : Option ℕ → Result (Unit {0})
close_fd none = fault aborted
close_fd (some fd) = ok tt

-- The descriptor and the address of the peer, or the error that the caller reads in `errno`.
unfoldable pub accept : AcceptResult → Result AcceptResult
accept (refused other) = fault aborted
accept answer = ok answer

-- `LocalAddress` and `PeerAddress`: getsockname(2) and getpeername(2).
unfoldable pub address_of : Option InetAddress → Result InetAddress
address_of answer = elim answer [ none ↦ fault aborted | some a ↦ ok a ]

unfoldable pub is_self_connect : Option InetAddress → Option InetAddress → Result Bool
is_self_connect local peer = do
  local_addr ← address_of local
  peer_addr ← address_of peer
  ok ((local_addr.s_addr == peer_addr.s_addr) && (local_addr.sin_port == peer_addr.sin_port))

-- `ErrorCode`: what getsockopt(2) stored, or the 0 from before the call.
unfoldable pub error_code : Option ℕ → ℕ
error_code none = 0
error_code (some code) = code
