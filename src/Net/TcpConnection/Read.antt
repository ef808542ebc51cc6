-- ===== src/Net/TcpConnection/Read.antt =====
-- `handle_read`: bytes for the user, the end of the peer's stream, or an error.
use wethands.Prelude.{
  ℕ, ◌+◌, ◌≤◌, ◌≡◌, refl, true, false, Option, none, some, List, [], ◌∷◌, ◌++◌, ◌||◌, ◌==◌,
  if◌then◌else◌, length, ok, Returns, Unless, Unless-bind, Unless_of, Returns-map, arith,
  Bool-cases, inl, inr, suc,
}
use wethands.Reactor.Channel.{is_reading, is_writing}
use wethands.Reactor.Channel.Mask.{disable_all_lem}
use wethands.Net.Buffer.{Buffer, max_size, extra_size, read_capacity}
use wethands.Net.Buffer.Laws.{contents}
use wethands.Net.Buffer.ReadFd.{IsReadv, Reads, Overran, read_fd_lem}
use wethands.Net.TcpConnection.{
  TcpConnection, connected, disconnecting, disconnected, is_state, message_callback, close_callback,
  note, handle_close, handle_error, handle_read,
}
use wethands.Net.TcpConnection.Stream.{stream, IsValid}

-- The connection can be closed: it is open and its owner listens.
abbrev pub CanClose : TcpConnection → Type 0
CanClose c =
    ((is_state c.state connected || is_state c.state disconnecting) ≡ true)
    × (c.has_close_callback ≡ true)

-- What `handle_close` makes of a connection.
pub record Closed (c c' : TcpConnection) : Type 0 where
  pub state_after : c'.state ≡ disconnected
  pub not_reading : is_reading c'.socket_channel ≡ false
  pub not_writing : is_writing c'.socket_channel ≡ false
  pub told : c'.log ≡ c.log ++ close_callback ∷ []
  pub same_stream : stream c' ≡ stream c

pub handle_close_lem : (c : TcpConnection) → CanClose c → Returns (handle_close c) (Closed c)
unfolding handle_close note
handle_close_lem c (open_, listens) =
    simp (open_, listens)
      (record {
        state_after = refl;
        not_reading = (disable_all_lem c.socket_channel).2;
        not_writing = (disable_all_lem c.socket_channel).1;
        told = refl;
        same_stream = refl;
      })

-- What the answer of the kernel makes of a connection.
abbrev pub ReadOutcome : Option (List ℕ) → TcpConnection → TcpConnection → Type 0
ReadOutcome none c c' = c' ≡ c
ReadOutcome (some []) c c' = Closed c c'
ReadOutcome (some (x ∷ xs)) c c' =
    (contents c'.input_buffer ≡ contents c.input_buffer ++ x ∷ xs)
    × (stream c' ≡ stream c)
    × (c'.state ≡ c.state)
    × (c'.log ≡ (if c.has_message_callback then c.log ++ message_callback ∷ [] else c.log))

read_outcome :
    (answer : Option (List ℕ)) (c : TcpConnection) (n : Option ℕ) (input : Buffer)
    → CanClose c
    → Reads answer c.input_buffer (n, input)
    → Returns
        (elim n [
          | none ↦ handle_error (record c { input_buffer = input })
          | some k ↦
              if k == 0
              then handle_close (record c { input_buffer = input })
              else ok (
                  if c.has_message_callback
                  then note (record c { input_buffer = input }) message_callback
                  else record c { input_buffer = input })
        ])
        (ReadOutcome answer c)
unfolding handle_error note
read_outcome none c n input can (failed, same) = rw (failed, same) refl
read_outcome (some []) c n input can (zero_, _) = rw zero_ (
    Returns-map (Closed (record c { input_buffer = input })) (Closed c) _
      (handle_close_lem (record c { input_buffer = input }) can)
      (λ c' d. record {
        state_after = d.state_after;
        not_reading = d.not_reading;
        not_writing = d.not_writing;
        told = d.told;
        same_stream = d.same_stream;
      }))
read_outcome (some (x ∷ xs)) c n input can (many, got) = rw many (
    let nonzero : (suc (length xs) == 0) ≡ false = ground arith in
    rw nonzero (elim (Bool-cases c.has_message_callback) [
      | inl listens ↦ simp listens (got.1, refl, refl, refl)
      | inr deaf ↦ simp deaf (got.1, refl, refl, refl)
    ]))

-- On an open connection an error of `handle_read` changes nothing; the end of the peer's stream
-- closes the connection and tells its owner; otherwise the bytes are appended to the input buffer,
-- the outgoing stream is as it was, and the user is told once if he listens. It faults in no way
-- but one: when more bytes came than fitted the input buffer and the readable bytes would move over
-- themselves, it may stop at a memcpy between overlapping regions.
pub handle_read_lem :
    (readv : ℕ → Option (List ℕ)) (c : TcpConnection)
    → IsReadv readv
    → IsValid c
    → CanClose c
    → length c.input_buffer.buffer + extra_size ≤ max_size
    → Unless
        (Overran (readv (read_capacity c.input_buffer)) c.input_buffer)
        (handle_read readv c)
        (ReadOutcome (readv (read_capacity c.input_buffer)) c)
unfolding handle_read
handle_read_lem readv c kernel v can small =
    let answer = readv (read_capacity c.input_buffer) in
    Unless-bind (Overran answer c.input_buffer) (Reads answer c.input_buffer) (ReadOutcome answer c)
      _ _ (read_fd_lem readv c.input_buffer kernel v.input small)
      λ (n, input) reads.
        Unless_of (Overran answer c.input_buffer) (ReadOutcome answer c) _
          (read_outcome answer c n input can reads)
