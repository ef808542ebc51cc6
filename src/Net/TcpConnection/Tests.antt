-- ===== src/Net/TcpConnection/Tests.antt =====
-- A connection that sends five bytes over a kernel that takes three at a time.
use Prim.Native.Nat.{min}
use wethands.Prelude.{
  ℕ, ◌≡◌, refl, true, false, Option, some, List, [], ◌∷◌, length, fault, assert_failed, Returns,
  Unless, arith, replicate,
}
use wethands.Reactor.Channel.{is_writing, has_bit, handle_event}
use wethands.Net.Buffer.{Buffer, readable_bytes}
use wethands.Net.Buffer.ReadFd.{IsReadv, Overran}
use wethands.Net.TcpConnection.{
  TcpConnection, connected, WriteResult, wrote, failed, ewouldblock, send_in_loop, handle_write,
  handle_read,
}
use wethands.Net.TcpConnection.Stream.{IsWrite, IsValid, Sends}
use wethands.Net.TcpConnection.Write.{handle_write_lem}
use wethands.Net.TcpConnection.Read.{Closed, handle_read_lem}
use wethands.Net.TcpConnection.Schedule.{Turn, sends, shutdowns, writable, runs_task}
use wethands.Net.TcpConnection.Close.{channel_callbacks, eof_with_hangup, Spins, send_all-Spins}

abbrev empty_buffer : Buffer
empty_buffer = record { buffer = replicate 16 0; read_index = 8; write_index = 8 }

abbrev quiet : TcpConnection
quiet = record {
  state = connected;
  reading = false;
  socket_channel = record { registered_to_poller = true; events = 1; revents = 0 };
  input_buffer = empty_buffer;
  output_buffer = empty_buffer;
  high_water_mark = 64;
  has_connection_callback = true;
  has_write_complete_callback = false;
  has_message_callback = true;
  has_high_water_mark_callback = false;
  has_close_callback = true;
  sent = [];
  write_shut = false;
  pending = [];
  log = [];
}

quiet-IsValid : IsValid quiet
unfolding readable_bytes
quiet-IsValid = record {
  input = omega arith;
  output = omega arith;
  channel = omega arith;
  armed = λ e h. absurd (omega arith);
}

-- A kernel that takes up to three bytes of a write, and one that reports the end of the stream.
three : List ℕ → WriteResult
three bytes = wrote (min 3 (length bytes))

three-IsWrite : IsWrite three
unfolding three
three-IsWrite bytes n e = ground arith

eof : ℕ → Option (List ℕ)
eof n = some []

eof-IsReadv : IsReadv eof
unfolding eof
eof-IsReadv n bytes e = ground arith

abbrev five : List ℕ
five = 1 ∷ 2 ∷ 3 ∷ 4 ∷ 5 ∷ []

-- A kernel that has no room.
full : List ℕ → WriteResult
full bytes = failed ewouldblock

-- The rest of the first send waits, is refused by a full kernel, and is taken later.
abbrev schedule : List Turn
schedule =
    (three, sends true five)
    ∷ (three, sends false (6 ∷ []))
    ∷ (full, writable)
    ∷ (full, runs_task)
    ∷ (three, shutdowns true)
    ∷ (three, writable)
    ∷ []

handle_write_lem_example : Returns (handle_write three quiet) (Sends quiet [])
handle_write_lem_example = handle_write_lem three quiet three-IsWrite quiet-IsValid

handle_read_lem_example :
    Unless (Overran (some []) quiet.input_buffer) (handle_read eof quiet) (Closed quiet)
unfolding eof
handle_read_lem_example =
    handle_read_lem eof quiet eof-IsReadv quiet-IsValid (refl, refl) (omega arith)

eof_with_hangup_example :
    handle_event (channel_callbacks eof three) 0x11 quiet ≡ fault assert_failed
eof_with_hangup_example =
    eof_with_hangup eof three quiet 0x11 eof-IsReadv quiet-IsValid (refl, refl) (omega arith)
      (unfold eof in refl) (unfold has_bit in refl) (unfold has_bit in refl)
      (unfold has_bit in refl) (unfold has_bit in refl)

send_all-Spins_example : Returns (send_in_loop three quiet (1 ∷ 2 ∷ [])) (Spins three)
send_all-Spins_example =
    send_all-Spins three quiet (1 ∷ 2 ∷ []) three-IsWrite quiet-IsValid refl
      (unfold is_writing has_bit in refl) (unfold readable_bytes in refl) refl (omega arith)
      (unfold three in refl)
