-- ===== src/Logger/AsyncLogging.antt =====
-- src/logger/AsyncLogging.h and AsyncLogging.cc: loggers fill buffers that a writer thread takes.
-- `none` of a buffer is a moved-from or null pointer. What the writer appends to its file is
-- `written`. A critical section is one step, and so is what the writer does between two of them.
pub mod Ownership
pub mod Steps
pub mod Complete
mod Tests
use wethands.Prelude.{
  ℕ, ◌+◌, ◌-◌, ◌*◌, Bool, true, false, Option, none, some, List, [], ◌∷◌, ◌++◌, ltb, if◌then◌else◌,
  length, take, Result, ok, fault, null_pointer, bad_access, assert, ◌>>=◌, ◌>>◌,
}

-- `FixedBuffer`: what was written to it.
abbrev pub FixedBuffer : Type 0
FixedBuffer = List ℕ

abbrev pub large_buffer_size : ℕ
large_buffer_size = 4 * 1024 * 1024

unfoldable pub available_bytes : FixedBuffer → ℕ
available_bytes b = large_buffer_size - length b

-- A line that does not fit is dropped.
unfoldable pub append_fixed : FixedBuffer → List ℕ → FixedBuffer
append_fixed b line = if ltb (length line) (available_bytes b) then b ++ line else b

pub record AsyncLogging : Type 0 where
  pub running : Bool
  pub buffers : List FixedBuffer
  pub current_buffer : Option FixedBuffer
  pub next_buffer : Option FixedBuffer
  -- The spare buffers of the writer: is each of them there? They are empty.
  pub new_buffer1 : Bool
  pub new_buffer2 : Bool
  pub written : List ℕ
  -- `buffersToWrite`, empty at the top of the writer's loop.
  pub buffers_to_write : List FixedBuffer

unfoldable pub new_async_logging : AsyncLogging
new_async_logging = record {
  running = true;
  buffers = [];
  current_buffer = some [];
  next_buffer = some [];
  new_buffer1 = true;
  new_buffer2 = true;
  written = [];
  buffers_to_write = [];
}

-- What follows when the current buffer is full: a spare one, or a new one.
unfoldable pub fresh_buffer : Option FixedBuffer → FixedBuffer
fresh_buffer none = []
fresh_buffer (some b) = b

-- `Append`.
unfoldable pub append : AsyncLogging → List ℕ → Result AsyncLogging
append a line = do
  assert a.running
  elim a.current_buffer [
    | none ↦ fault null_pointer
    | some b ↦ ok (
        if ltb (length line) (available_bytes b)
        then record a { current_buffer = some (append_fixed b line) }
        else record a {
          buffers = a.buffers ++ b ∷ [];
          current_buffer = some (append_fixed (fresh_buffer a.next_buffer) line);
          next_buffer = none;
        })
  ]

-- A spare buffer that is there is empty.
unfoldable pub spare : Bool → Option FixedBuffer
spare true = some []
spare false = none

-- The contents of all buffers, in order.
unfoldable pub flatten : List FixedBuffer → List ℕ
flatten [] = []
flatten (b ∷ bs) = b ++ flatten bs

-- More than 16 buffers are cut to the first two.
unfoldable pub keep_few : List FixedBuffer → List FixedBuffer
keep_few bs = if ltb 16 (length bs) then take 2 bs else bs

-- The critical section of the writer: it takes all buffers and leaves its spare ones. Whether it
-- waited before makes no difference to what it takes.
unfoldable pub collect : AsyncLogging → Result AsyncLogging
collect a = elim a.current_buffer [
  | none ↦ fault null_pointer
  | some b ↦
      let taken : AsyncLogging = record a {
        buffers = [];
        buffers_to_write = a.buffers ++ b ∷ [];
        current_buffer = spare a.new_buffer1;
        new_buffer1 = false;
      } in
      ok (elim a.next_buffer [
        | none ↦ record taken { next_buffer = spare a.new_buffer2; new_buffer2 = false }
        | some next ↦ taken
      ])
]

-- `back` and `pop_back` of a vector with this many buffers; on an empty one they are undefined.
unfoldable pub pop_back : ℕ → Result ℕ
pop_back count = if ltb 0 count then ok (count - 1) else fault bad_access

-- The writer takes its spare buffers back from those that it wrote, of which it keeps 2 at most.
unfoldable pub reclaim : AsyncLogging → Result AsyncLogging
reclaim a = do
  left ← pop_back (length (take 2 a.buffers_to_write))
  rest ← (if a.new_buffer2 then ok left else pop_back left)
  ok (record a { new_buffer1 = true; new_buffer2 = true; buffers_to_write = [] })

-- The rest of the round: what was taken is written to the file.
unfoldable pub write_out : AsyncLogging → Result AsyncLogging
write_out a =
    let few = keep_few a.buffers_to_write in
    reclaim (record a { buffers_to_write = few; written = a.written ++ flatten few })

pub data Event : Type 0 where
  logs : List ℕ → Event
  collects : Event
  writes_out : Event

-- The writer is either at the top of its loop or has something to write.
unfoldable pub step : AsyncLogging → Event → Result AsyncLogging
step a (logs line) = append a line
step a collects = elim a.buffers_to_write [ [] ↦ collect a | b ∷ bs ↦ ok a ]
step a writes_out = elim a.buffers_to_write [ [] ↦ ok a | b ∷ bs ↦ write_out a ]

unfoldable pub run : AsyncLogging → List Event → Result AsyncLogging
run a [] = ok a
run a (e ∷ es) = step a e >>= λ a'. run a' es
