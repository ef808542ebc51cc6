-- ===== src/Net/TcpConnection/Send.antt =====
-- `send_in_loop` and `send`.
use mathlib.Core.List.{append_assoc, append-nil}
use wethands.Prelude.{
  ℕ, ◌+◌, ◌≤◌, ◌≡◌, refl, ap, ◌∙◌, true, false, List, [], ◌∷◌, ◌++◌, ◌==◌, length, take, drop, ok,
  fault, aborted, Unless, Unless-map, arith, Bool-cases, inl, inr, sub_size, ◌&&◌, not, length-drop,
  le→leb,
}
use wethands.Prelude.Slices.{take-append-drop, take-all}
use wethands.Reactor.Channel.{is_writing}
use wethands.Net.Buffer.{readable_bytes, max_size}
use wethands.Net.Buffer.Place.{IsCrowded}
use wethands.Net.Buffer.Laws.{contents, length-contents}
use wethands.Net.TcpConnection.{
  TcpConnection, connected, is_state, WriteResult, wrote, failed, other, epipe, eintr, ewouldblock,
  buffer_rest, after_write, send_in_loop, note, write_complete_callback,
}
use wethands.Net.TcpConnection.Stream.{
  stream, is_state_of, IsWrite, NotFatal, IsValid, Sends, buffer_rest_lem,
}

pub length-zero : (xs : List ℕ) → length xs ≡ 0 → xs ≡ []
length-zero [] e = refl
length-zero (x ∷ xs) e = absurd (omega arith)

module _ (c : TcpConnection) (bytes : List ℕ) (v : IsValid c)
    (small : length c.output_buffer.buffer + length bytes ≤ max_size) where
  wrote_first : ℕ → TcpConnection
  wrote_first n = record c { sent = c.sent ++ take n bytes }

  -- The bytes that the kernel took join the stream, since nothing is buffered before them.
  wrote_first-stream :
      (n : ℕ) → contents c.output_buffer ≡ [] → stream (wrote_first n) ≡ stream c ++ take n bytes
  unfolding wrote_first
  wrote_first-stream n empty = simp (empty, append-nil)

  wrote_first-Sends :
      (n : ℕ)
      → contents c.output_buffer ≡ []
      → length bytes ≤ n
      → Sends c bytes (note (wrote_first n) write_complete_callback)
  unfolding wrote_first note
  wrote_first-Sends n empty all = record {
    valid = record { input = v.input; output = v.output; channel = v.channel; armed = v.armed };
    streamed = wrote_first-stream n empty ∙ ap (λ l. stream c ++ l) (take-all n bytes all);
    same_state = refl;
    same_shut = refl;
    same_input = refl;
    same_close = refl;
    same_queued = refl;
    same_shutdown = refl;
    grown = omega arith;
  }

  rest-Sends :
      (n : ℕ)
      → contents c.output_buffer ≡ []
      → Unless
          (IsCrowded c.output_buffer)
          (buffer_rest (wrote_first n) (drop n bytes))
          (Sends c bytes)
  unfolding wrote_first
  rest-Sends n empty =
      Unless-map (IsCrowded c.output_buffer) (IsCrowded c.output_buffer) _ (Sends c bytes) _
        (buffer_rest_lem (wrote_first n) (drop n bytes)
          (record { input = v.input; output = v.output; channel = v.channel; armed = v.armed })
          (omega (arith, length-drop n bytes)))
        (λ q. q)
        λ c' (s, _, _). record {
          valid = s.valid;
          streamed =
              s.streamed
              ∙ ap (λ l. l ++ drop n bytes) (wrote_first-stream n empty)
              ∙ append_assoc (stream c) (take n bytes) (drop n bytes)
              ∙ ap (λ l. stream c ++ l) (take-append-drop n bytes);
          same_state = s.same_state;
          same_shut = s.same_shut;
          same_input = s.same_input;
          same_close = s.same_close;
          same_queued = s.same_queued;
          same_shutdown = s.same_shutdown;
          grown = omega (arith, s.grown, length-drop n bytes);
        }

  -- The direct write: what the kernel left goes to the buffer.
  after_write_lem :
      (n : ℕ)
      → n ≤ length bytes
      → contents c.output_buffer ≡ []
      → Unless (IsCrowded c.output_buffer) (after_write c bytes n) (Sends c bytes)
  unfolding after_write
  after_write_lem n few empty =
      elim (Bool-cases ((sub_size (length bytes) n == 0) && c.has_write_complete_callback)) [
        | inl done ↦ rw done (unfold wrote_first in wrote_first-Sends n empty (ground arith))
        | inr more ↦
            rw (more, le→leb (sub_size (length bytes) n) (length bytes) (omega arith))
              (unfold wrote_first in rest-Sends n empty)
      ]

  all-Sends : Unless (IsCrowded c.output_buffer) (buffer_rest c bytes) (Sends c bytes)
  all-Sends =
      Unless-map (IsCrowded c.output_buffer) (IsCrowded c.output_buffer) _ (Sends c bytes) _
        (buffer_rest_lem c bytes v small) (λ q. q) (λ c' out. out.0)

  no_contents : (readable_bytes c.output_buffer == 0) ≡ true → contents c.output_buffer ≡ []
  no_contents e =
      length-zero (contents c.output_buffer)
        (ground (arith, length-contents c.output_buffer v.output))

  answer-Sends :
      (write : List ℕ → WriteResult)
      → IsWrite write
      → NotFatal write
      → contents c.output_buffer ≡ []
      → (r : WriteResult) → write bytes ≡ r
      → Unless
          (IsCrowded c.output_buffer)
          (elim r [
            | wrote n ↦ after_write c bytes n
            | failed other ↦ fault aborted
            | failed e ↦ buffer_rest c bytes
          ])
          (Sends c bytes)
  answer-Sends write kernel calm empty (wrote n) e = after_write_lem n (kernel bytes n e) empty
  answer-Sends write kernel calm empty (failed other) e = absurd (calm bytes e)
  answer-Sends write kernel calm empty (failed epipe) e = all-Sends
  answer-Sends write kernel calm empty (failed eintr) e = all-Sends
  answer-Sends write kernel calm empty (failed ewouldblock) e = all-Sends

  pub send_in_loop_lem :
      (write : List ℕ → WriteResult)
      → IsWrite write
      → NotFatal write
      → c.state ≡ connected
      → Unless (IsCrowded c.output_buffer) (send_in_loop write c bytes) (Sends c bytes)
  unfolding send_in_loop
  send_in_loop_lem write kernel calm open_ =
      elim (Bool-cases
        (not (is_writing c.socket_channel) && (readable_bytes c.output_buffer == 0))) [
          | inl direct ↦
              rw (is_state_of c connected open_, direct)
                (answer-Sends write kernel calm (no_contents (ground arith)) (write bytes) refl)
          | inr buffered ↦ rw (is_state_of c connected open_, buffered) all-Sends
        ]

-- On a connection that is not connected it does nothing.
pub send_in_loop-closed :
    (write : List ℕ → WriteResult) (c : TcpConnection) (bytes : List ℕ)
    → is_state c.state connected ≡ false
    → send_in_loop write c bytes ≡ ok c
unfolding send_in_loop
send_in_loop-closed write c bytes shut = rw shut
