-- ===== src/Net/TcpConnection/Close.antt =====
-- Closing: what happens when a connection is closed again, and a loop that does not come to rest.
use wethands.Prelude.{
  ℕ, ◌+◌, ◌≤◌, ◌≡◌, refl, ap, ◌∙◌, true, false, Option, none, some, List, [], ◌++◌, ltb,
  if◌then◌else◌, length, length-drop, take, drop, Result, ok, fault, assert_failed, Returns,
  Unless-Returns, Never, ◌∷◌, Returns-out, Returns-map, arith, Bool-cases, inl, inr,
}
use wethands.Prelude.Slices.{drop-all}
use wethands.Reactor.Channel.{
  is_writing, has_bit, handle_event, Callbacks, epollin, epollpri, epollrdhup, epollout, epollerr,
  epollhup,
}
use wethands.Net.Buffer.{max_size, extra_size, read_capacity, peek, readable_bytes}
use wethands.Net.Buffer.Place.{IsCrowded}
use wethands.Net.Buffer.Laws.{contents, peek-contents, length-contents}
use wethands.Net.Buffer.ReadFd.{IsReadv, Overran}
use wethands.Net.TcpConnection.{
  TcpConnection, connected, disconnecting, disconnected, is_state, WriteResult, wrote, failed,
  handle_close, handle_error, handle_read, handle_write, force_close, force_close_in_loop,
  send_in_loop, after_write, buffer_rest,
}
use wethands.Net.TcpConnection.Stream.{IsWrite, IsValid, is_state_of, buffer_rest_lem, Buffers}
use wethands.Net.TcpConnection.Send.{length-zero}
use wethands.Net.TcpConnection.Read.{
  CanClose, Closed, ReadOutcome, handle_close_lem, handle_read_lem,
}

-- The callbacks that the constructor sets on the channel.
unfoldable pub channel_callbacks :
    (ℕ → Option (List ℕ)) → (List ℕ → WriteResult) → Callbacks TcpConnection
channel_callbacks readv write = record {
  read_callback = handle_read readv;
  write_callback = handle_write write;
  error_callback = handle_error;
  close_callback = handle_close;
}

-- `handle_close` needs an open connection.
handle_close-closed :
    (c : TcpConnection) → c.state ≡ disconnected → handle_close c ≡ fault assert_failed
unfolding handle_close
handle_close-closed c e =
    simp (ap (λ s. is_state s connected) e, ap (λ s. is_state s disconnecting) e)

-- When one report of the poller has both the end of the peer's stream and a hang-up, the read
-- callback closes the connection and the close callback then fails its assertion.
pub eof_with_hangup :
    (readv : ℕ → Option (List ℕ)) (write : List ℕ → WriteResult) (c : TcpConnection) (revents : ℕ)
    → IsReadv readv
    → IsValid c
    → CanClose c
    → length c.input_buffer.buffer + extra_size ≤ max_size
    → readv (read_capacity c.input_buffer) ≡ some []
    → has_bit revents (epollin + epollpri + epollrdhup) ≡ true
    → has_bit revents epollout ≡ false
    → has_bit revents epollerr ≡ false
    → has_bit revents epollhup ≡ true
    → handle_event (channel_callbacks readv write) revents c ≡ fault assert_failed
unfolding handle_event channel_callbacks
eof_with_hangup readv write c revents kernel v can small eof in_ out err hup =
    let (c', went, d) =
      Returns-out (ReadOutcome (readv (read_capacity c.input_buffer)) c) (handle_read readv c) (
        Unless-Returns (Overran (readv (read_capacity c.input_buffer)) c.input_buffer)
          (ReadOutcome (readv (read_capacity c.input_buffer)) c) (handle_read readv c)
          (handle_read_lem readv c kernel v can small)
          (λ q. not_over (readv (read_capacity c.input_buffer)) eof q)) in
    rw (in_, out, err, hup, went) (handle_close-closed c' (closed c' d))
  where
    not_over :
        (answer : Option (List ℕ)) → answer ≡ some [] → Overran answer c.input_buffer → Never {0}
    not_over none e q = q
    not_over (some []) e q = absurd (omega (arith, q.0))
    not_over (some (x ∷ xs)) e q = cc e

    closed :
        (c' : TcpConnection)
        → ReadOutcome (readv (read_capacity c.input_buffer)) c c'
        → c'.state ≡ disconnected
    closed c' d = (rw eof at d).state_after

-- `ForceClose` on a connection that is closed already closes it again and tells its owner again:
-- the guard `state_ == kConnected || kDisconnecting` is always true.
pub force_close_again :
    (c : TcpConnection)
    → c.state ≡ disconnected
    → c.has_close_callback ≡ true
    → Returns (force_close true c) (Closed c)
unfolding force_close force_close_in_loop
force_close_again c e listens = rw (ap (λ s. is_state s connected) e) (
    Returns-map (Closed (record c { state = disconnecting })) (Closed c) _
      (handle_close_lem (record c { state = disconnecting }) (refl, listens))
      (λ c' d. record {
        state_after = d.state_after;
        not_reading = d.not_reading;
        not_writing = d.not_writing;
        told = d.told;
        same_stream = d.same_stream;
      }))

-- A write that took nothing goes on to nothing.
none_taken :
    (c : TcpConnection) (go_on : ℕ → Result TcpConnection) (r : WriteResult)
    → ((n : ℕ) → r ≡ wrote n → n ≡ 0)
    → ◌≡◌ {A = Result TcpConnection}
        (elim r [ failed e ↦ ok c | wrote n ↦ if ltb 0 n then go_on n else ok c ])
        (ok c)
none_taken c go_on (failed e) h = refl
none_taken c go_on (wrote n) h = ground (arith, h n refl)

-- On a valid connection with nothing buffered a write event changes nothing.
handle_write-idle :
    (write : List ℕ → WriteResult) (c : TcpConnection)
    → IsWrite write
    → IsValid c
    → contents c.output_buffer ≡ []
    → handle_write write c ≡ ok c
unfolding handle_write
handle_write-idle write c kernel v empty = elim (Bool-cases (is_writing c.socket_channel)) [
  | inl waiting ↦ rw waiting (none_taken c _ (write (peek c.output_buffer)) none_there)
  | inr idle ↦ rw idle
]
  where
    none_there : (n : ℕ) → write (peek c.output_buffer) ≡ wrote n → n ≡ 0
    none_there n e = omega (
      arith,
      kernel (peek c.output_buffer) n e,
      ap (length {A = ℕ}) (peek-contents c.output_buffer v.output ∙ empty),
    )

-- Nothing is buffered, a write event is waited for, and it changes nothing.
abbrev pub Spins : (List ℕ → WriteResult) → TcpConnection → Type 0
Spins write c =
    (contents c.output_buffer ≡ [])
    × (is_writing c.socket_channel ≡ true)
    × (handle_write write c ≡ ok c)

-- A quiet connection with no write-complete callback, whose bytes the kernel takes all at once,
-- waits to write although nothing is buffered; a write event then changes nothing, so the loop
-- is woken again and again.
pub send_all-Spins :
    (write : List ℕ → WriteResult) (c : TcpConnection) (bytes : List ℕ)
    → IsWrite write
    → IsValid c
    → c.state ≡ connected
    → is_writing c.socket_channel ≡ false
    → readable_bytes c.output_buffer ≡ 0
    → c.has_write_complete_callback ≡ false
    → length c.output_buffer.buffer + length bytes ≤ max_size
    → write bytes ≡ wrote (length bytes)
    → Returns (send_in_loop write c bytes) (Spins write)
unfolding send_in_loop after_write
send_all-Spins write c bytes kernel v open_ quiet empty deaf small all = rw computed (
    Returns-map (Buffers wrote_all (drop (length bytes) bytes)) (Spins write) _
      (Unless-Returns (IsCrowded c.output_buffer) (Buffers wrote_all (drop (length bytes) bytes)) _
        (buffer_rest_lem wrote_all (drop (length bytes) bytes) valid
          (omega (arith, length-drop (length bytes) bytes)))
        (λ q. absurd (omega (arith, q.0, q.1, empty))))
      λ c' (s, waits, held).
        (held ∙ nothing, waits, handle_write-idle write c' kernel s.valid (held ∙ nothing)))
  where
    wrote_all : TcpConnection
    wrote_all = record c { sent = c.sent ++ take (length bytes) bytes }

    valid : IsValid wrote_all
    valid = record { input = v.input; output = v.output; channel = v.channel; armed = v.armed }

    computed : send_in_loop write c bytes ≡ buffer_rest wrote_all (drop (length bytes) bytes)
    computed = ground (arith, is_state_of c connected open_, quiet, empty, all, deaf)

    nothing : contents c.output_buffer ++ drop (length bytes) bytes ≡ []
    nothing = simp (
      length-zero (contents c.output_buffer) (length-contents c.output_buffer v.output ∙ empty),
      drop-all (length bytes) bytes (omega arith),
    )
