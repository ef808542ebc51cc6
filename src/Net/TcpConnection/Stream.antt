-- ===== src/Net/TcpConnection/Stream.antt =====
-- The byte stream of a connection: what the kernel took, followed by what is buffered.
use mathlib.Core.List.{append_assoc}
use wethands.Prelude.{
  ℕ, ◌+◌, ◌<◌, ◌≤◌, ◌≡◌, ◌≢◌, refl, sym, ap, ◌∙◌, Bool, true, false, List, [], ◌∷◌, ◌++◌, length,
  Unless, Unless-bind, arith, ◌||◌,
}
use wethands.Reactor.Channel.{Channel, is_writing}
use wethands.Reactor.Channel.Mask.{InRange, enable_writing_lem}
use wethands.Net.Buffer.{readable_bytes, max_size}
use wethands.Net.Buffer.Laws
use wethands.Net.Buffer.Laws.{contents, length-contents}
use wethands.Net.Buffer.Place.{IsCrowded}
use wethands.Net.Buffer.Append.{Appended, append_lem}
use wethands.Net.TcpConnection.{
  TcpConnection, States, is_state, connected, Task, high_water_mark_task, send_in_loop_task,
  shutdown_task, high_water_pending, WriteResult, wrote, failed, other, buffer_rest, want_writing,
}

abbrev pub stream : TcpConnection → List ℕ
stream c = c.sent ++ contents c.output_buffer

pub is_state_of :
    (c : TcpConnection) (s : States)
    → c.state ≡ s
    → is_state c.state connected ≡ is_state s connected
is_state_of c s e = ap (λ t. is_state t connected) e

-- write(2) takes no more than it is given.
abbrev pub IsWrite : (List ℕ → WriteResult) → Type 0
IsWrite write = (bytes : List ℕ) (n : ℕ) → write bytes ≡ wrote n → n ≤ length bytes

-- It fails in no way that ends the process.
abbrev pub NotFatal : (List ℕ → WriteResult) → Type 0
NotFatal write = (bytes : List ℕ) → write bytes ≢ failed other

-- The bytes of a task, and of a queue.
abbrev pub task_bytes : Task → List ℕ
task_bytes (send_in_loop_task bytes) = bytes
task_bytes _ = []

abbrev pub queued : List Task → ℕ
queued [] = 0
queued (task ∷ tasks) = length (task_bytes task) + queued tasks

abbrev pub is_shutdown : Task → Bool
is_shutdown shutdown_task = true
is_shutdown _ = false

abbrev pub has_shutdown : List Task → Bool
has_shutdown [] = false
has_shutdown (task ∷ tasks) = is_shutdown task || has_shutdown tasks

pub queued-append : (xs ys : List Task) → queued (xs ++ ys) ≡ queued xs + queued ys
queued-append [] ys = omega arith
queued-append (x ∷ xs) ys = omega (arith, queued-append xs ys)

pub has_shutdown-append :
    (xs ys : List Task) → has_shutdown (xs ++ ys) ≡ (has_shutdown xs || has_shutdown ys)
has_shutdown-append [] ys = refl
has_shutdown-append (x ∷ xs) ys = ground (arith, has_shutdown-append xs ys)

pub record IsValid (c : TcpConnection) : Type 0 where
  pub input : Laws.IsValid c.input_buffer
  pub output : Laws.IsValid c.output_buffer
  pub channel : InRange c.socket_channel
  -- Buffered bytes of an open connection wait for the socket to become writable.
  pub armed :
      c.state ≡ connected → 0 < readable_bytes c.output_buffer → is_writing c.socket_channel ≡ true

-- A step that adds `bytes` to the stream and leaves the rest of the connection alone.
pub record Sends (c : TcpConnection) (bytes : List ℕ) (c' : TcpConnection) : Type 0 where
  pub valid : IsValid c'
  pub streamed : stream c' ≡ stream c ++ bytes
  pub same_state : c'.state ≡ c.state
  pub same_shut : c'.write_shut ≡ c.write_shut
  pub same_input : c'.input_buffer ≡ c.input_buffer
  pub same_close : c'.has_close_callback ≡ c.has_close_callback
  pub same_queued : queued c'.pending ≡ queued c.pending
  pub same_shutdown : has_shutdown c'.pending ≡ has_shutdown c.pending
  pub grown : length c'.output_buffer.buffer ≤ length c.output_buffer.buffer + length bytes

want_writing_lem :
    (channel : Channel)
    → InRange channel
    → InRange (want_writing channel) × (is_writing (want_writing channel) ≡ true)
unfolding want_writing
want_writing_lem channel v = ground (arith, enable_writing_lem channel v)

high_water_pending_lem :
    (c : TcpConnection) (old_bytes total : ℕ)
    → (queued (high_water_pending c old_bytes total) ≡ queued c.pending)
      × (has_shutdown (high_water_pending c old_bytes total) ≡ has_shutdown c.pending)
unfolding high_water_pending
high_water_pending_lem c old_bytes total = ground (
  arith,
  queued-append c.pending (high_water_mark_task total ∷ []),
  has_shutdown-append c.pending (high_water_mark_task total ∷ []),
)

abbrev pub Buffers : TcpConnection → List ℕ → TcpConnection → Type 0
Buffers c rest c' =
    Sends c rest c'
    × (is_writing c'.socket_channel ≡ true)
    × (contents c'.output_buffer ≡ contents c.output_buffer ++ rest)

-- What cannot be written at once goes behind what is buffered, and is waited for, unless what is
-- buffered would move over itself.
pub buffer_rest_lem :
    (c : TcpConnection) (rest : List ℕ)
    → IsValid c
    → length c.output_buffer.buffer + length rest ≤ max_size
    → Unless (IsCrowded c.output_buffer) (buffer_rest c rest) (Buffers c rest)
unfolding buffer_rest
buffer_rest_lem c rest v small =
    Unless-bind (IsCrowded c.output_buffer) (Appended c.output_buffer rest) (Buffers c rest) _ _
      (append_lem c.output_buffer rest v.output small)
      λ b (ok_b, more, grown). (
        record {
          valid = record {
            input = v.input;
            output = ok_b;
            channel = (want_writing_lem c.socket_channel v.channel).0;
            armed = λ _ _. (want_writing_lem c.socket_channel v.channel).1;
          };
          streamed = ap (λ l. c.sent ++ l) more ∙ sym (append_assoc c.sent _ _);
          same_state = refl;
          same_shut = refl;
          same_input = refl;
          same_close = refl;
          same_queued = (high_water_pending_lem c _ _).0;
          same_shutdown = (high_water_pending_lem c _ _).1;
          grown = grown;
        },
        (want_writing_lem c.socket_channel v.channel).1,
        more,
      )
