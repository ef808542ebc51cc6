-- ===== src/Net/TcpConnection/Write.antt =====
-- `handle_write`: the buffered bytes go out in order, and none is lost between writes.
use mathlib.Core.List.{append_assoc, append-nil}
use wethands.Prelude.{
  ℕ, ◌≡◌, refl, sym, ap, ◌∙◌, true, List, [], ◌++◌, ltb, ◌==◌, if◌then◌else◌, length, take, drop,
  ok, Returns, Returns-bind, arith, Bool-cases, inl, inr, ◌>>=◌,
}
use wethands.Prelude.Slices.{take-append-drop}
use wethands.Reactor.Channel.{is_writing}
use wethands.Reactor.Channel.Mask.{disable_writing_lem}
use wethands.Net.Buffer.{Buffer, peek, readable_bytes, retrieve}
use wethands.Net.Buffer.Laws.{contents, length-contents, peek-contents, Retrieved, retrieve_lem}
use wethands.Net.TcpConnection.{
  TcpConnection, WriteResult, wrote, failed, note, shutdown_in_loop, all_written, handle_write,
}
use wethands.Net.TcpConnection.Stream.{stream, IsWrite, IsValid, Sends}

refl-Sends : (c : TcpConnection) → IsValid c → Sends c [] c
refl-Sends c v = record {
  valid = v;
  streamed = sym (append-nil (stream c));
  same_state = refl;
  same_shut = refl;
  same_input = refl;
  same_close = refl;
  same_queued = refl;
  same_shutdown = refl;
  grown = omega arith;
}

-- With nothing buffered the channel stops waiting, and a shutdown under way changes nothing.
all_written_lem :
    (c : TcpConnection)
    → IsValid c
    → readable_bytes c.output_buffer ≡ 0
    → Sends c [] (all_written c)
unfolding all_written shutdown_in_loop note
all_written_lem c v empty = record {
  valid = record {
    input = ground (arith, v.input);
    output = ground (arith, v.output);
    channel = ground (arith, disable_writing_lem c.socket_channel v.channel);
    armed = ground (arith, empty);
  };
  streamed = ground (arith, append-nil (stream c));
  same_state = ground arith;
  same_shut = ground arith;
  same_input = ground arith;
  same_close = ground arith;
  same_queued = ground arith;
  same_shutdown = ground arith;
  grown = ground arith;
}

module _ (c : TcpConnection) (v : IsValid c) (waiting : is_writing c.socket_channel ≡ true) where
  -- The connection after a write of `n` bytes left `rest` buffered.
  partly : Buffer → ℕ → TcpConnection
  partly rest n = record c { output_buffer = rest; sent = c.sent ++ take n (peek c.output_buffer) }

  partly-Sends :
      (rest : Buffer) (n : ℕ) → Retrieved c.output_buffer n rest → Sends c [] (partly rest n)
  unfolding partly
  partly-Sends rest n (w, left, same) = record {
    valid = record { input = v.input; output = w; channel = v.channel; armed = λ _ _. waiting };
    streamed =
        rw (left, peek-contents c.output_buffer v.output)
          (append_assoc c.sent (take n (contents c.output_buffer))
              (drop n (contents c.output_buffer))
            ∙ ap (λ l. c.sent ++ l) (take-append-drop n (contents c.output_buffer))
            ∙ sym (append-nil (stream c)));
    same_state = refl;
    same_shut = refl;
    same_input = refl;
    same_close = refl;
    same_queued = refl;
    same_shutdown = refl;
    grown = rw same (omega arith);
  }

  finish-Sends :
      (rest : Buffer) (n : ℕ)
      → Retrieved c.output_buffer n rest
      → Sends c [] (if readable_bytes rest == 0 then all_written (partly rest n) else partly rest n)
  finish-Sends rest n r = elim (Bool-cases (readable_bytes rest == 0)) [
    | inl empty ↦ rw empty (
        let s = partly-Sends rest n r in
        let t = all_written_lem (partly rest n) s.valid (unfold partly in ground arith) in
        record {
          valid = t.valid;
          streamed = t.streamed ∙ append-nil _ ∙ s.streamed;
          same_state = t.same_state ∙ s.same_state;
          same_shut = t.same_shut ∙ s.same_shut;
          same_input = t.same_input ∙ s.same_input;
          same_close = t.same_close ∙ s.same_close;
          same_queued = t.same_queued ∙ s.same_queued;
          same_shutdown = t.same_shutdown ∙ s.same_shutdown;
          grown = omega (arith, t.grown, s.grown);
        })
    | inr more ↦ rw more (partly-Sends rest n r)
  ]

  answer-Sends :
      (write : List ℕ → WriteResult)
      → IsWrite write
      → (r : WriteResult) → write (peek c.output_buffer) ≡ r
      → Returns
          (elim r [
            | failed e ↦ ok c
            | wrote n ↦
                if ltb 0 n
                then (retrieve c.output_buffer n >>= λ rest. ok (
                    if readable_bytes rest == 0
                    then all_written (partly rest n)
                    else partly rest n))
                else ok c
          ])
          (Sends c [])
  answer-Sends write kernel (failed e) h = refl-Sends c v
  answer-Sends write kernel (wrote n) h = elim (Bool-cases (ltb 0 n)) [
    | inl some_taken ↦ rw some_taken (
        Returns-bind (Retrieved c.output_buffer n) (Sends c []) _ _
          (retrieve_lem c.output_buffer n v.output (
            omega (
              arith,
              kernel (peek c.output_buffer) n h,
              ap (length {A = ℕ}) (peek-contents c.output_buffer v.output),
              length-contents c.output_buffer v.output,
            )))
          (λ rest r. finish-Sends rest n r))
    | inr none_taken ↦ rw none_taken (refl-Sends c v)
  ]

-- `handle_write` faults in no way; whatever part of the buffered bytes the kernel takes, the stream
-- is what it was, and so are the state and the write side of the socket.
pub handle_write_lem :
    (write : List ℕ → WriteResult) (c : TcpConnection)
    → IsWrite write
    → IsValid c
    → Returns (handle_write write c) (Sends c [])
unfolding handle_write partly
handle_write_lem write c kernel v = elim (Bool-cases (is_writing c.socket_channel)) [
  | inl waiting ↦
      rw waiting (answer-Sends c v waiting write kernel (write (peek c.output_buffer)) refl)
  | inr idle ↦ rw idle (refl-Sends c v)
]
