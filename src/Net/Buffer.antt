-- ===== src/Net/Buffer.antt =====
-- src/net/Buffer.h and Buffer.cc: the growing byte buffer of a connection.
-- A pointer into the buffer is its offset from `Begin()`; a `(data, len)` pair is a list of bytes.
pub mod Laws
pub mod Place
pub mod Append
pub mod ReadFd
pub mod Find
mod Tests
use wethands.Prelude.{
  add_size, sub_size, ℕ, ◌+◌, ◌-◌, ◌%◌, ◌^◌, ◌<◌, Bool, true, false, ◌&&◌, Option, none, some, List,
  [], ◌∷◌, ◌++◌, ltb, leb, ◌==◌, if◌then◌else◌, length, take, drop, replicate, Result, ok,
  bad_access, overlap, uncaught, require, assert, ◌>>=◌, ◌>>◌, zero, suc,
}
use wethands.Prelude.Slices.{slice, overwrite}

pub record Buffer : Type 0 where
  pub buffer : List ℕ
  pub read_index : ℕ
  pub write_index : ℕ

abbrev pub initial_size : ℕ
initial_size = 1024

abbrev pub init_prepend_size : ℕ
init_prepend_size = 8

-- The most bytes that a `std::vector<char>` holds.
abbrev pub max_size : ℕ
max_size = 2 ^ 63 - 1

unfoldable pub readable_bytes : Buffer → ℕ
readable_bytes b = sub_size b.write_index b.read_index

unfoldable pub writable_bytes : Buffer → ℕ
writable_bytes b = sub_size (length b.buffer) b.write_index

unfoldable pub prependable_bytes : Buffer → ℕ
prependable_bytes b = b.read_index

-- The `ReadableBytes()` bytes from `Peek()` on.
unfoldable pub peek : Buffer → List ℕ
peek b = slice b.read_index (readable_bytes b) b.buffer

-- `::memcpy` into the vector's storage, from memory outside of it.
unfoldable pub memcpy : List ℕ → ℕ → List ℕ → Result (List ℕ)
memcpy xs i ys = do require (leb (i + length ys) (length xs)) bad_access; ok (overwrite xs i ys)

-- `std::vector<char>::resize`.
unfoldable pub resize : List ℕ → ℕ → Result (List ℕ)
resize xs n = do require (leb n max_size) uncaught; ok (take n xs ++ replicate (n - length xs) 0)

unfoldable pub new_buffer : ℕ → Result Buffer
new_buffer n = do
  require (leb (add_size init_prepend_size n) max_size) uncaught
  let b : Buffer = record {
    buffer = replicate (add_size init_prepend_size n) 0;
    read_index = init_prepend_size;
    write_index = init_prepend_size;
  }
  assert (readable_bytes b == 0)
  assert (writable_bytes b == n)
  assert (prependable_bytes b == init_prepend_size)
  ok b

unfoldable pub swap : Buffer → Buffer → Buffer × Buffer
swap b rhs = (
  record { buffer = rhs.buffer; read_index = rhs.read_index; write_index = rhs.write_index },
  record { buffer = b.buffer; read_index = b.read_index; write_index = b.write_index },
)

unfoldable pub retrieve_all : Buffer → Buffer
retrieve_all b = record b { read_index = init_prepend_size; write_index = init_prepend_size }

unfoldable pub retrieve : Buffer → ℕ → Result Buffer
retrieve b len = do
  assert (leb len (readable_bytes b))
  ok (
      if ltb len (readable_bytes b)
      then record b { read_index = add_size b.read_index len }
      else retrieve_all b)

unfoldable pub retrieve_until : Buffer → ℕ → Result Buffer
retrieve_until b end = do
  assert (leb b.read_index end)
  assert (leb end b.write_index)
  retrieve b (end - b.read_index)

unfoldable pub retrieve_as_string : Buffer → ℕ → Result (List ℕ × Buffer)
retrieve_as_string b len = do
  assert (leb len (readable_bytes b))
  require (leb (b.read_index + len) (length b.buffer)) bad_access
  rest ← retrieve b len
  ok (slice b.read_index len b.buffer, rest)

unfoldable pub retrieve_all_as_string : Buffer → Result (List ℕ × Buffer)
retrieve_all_as_string b = retrieve_as_string b (readable_bytes b)

unfoldable pub has_writen : Buffer → ℕ → Result Buffer
has_writen b len = do
  assert (leb len (writable_bytes b))
  ok (record b { write_index = add_size b.write_index len })

unfoldable pub unwrite : Buffer → ℕ → Result Buffer
unwrite b len = do
  assert (leb len (readable_bytes b))
  ok (record b { write_index = sub_size b.write_index len })

unfoldable pub prepend : Buffer → List ℕ → Result Buffer
prepend b bytes = do
  assert (leb (length bytes) (prependable_bytes b))
  let start = sub_size b.read_index (length bytes)
  moved ← memcpy b.buffer start bytes
  ok (record b { buffer = moved; read_index = start })

-- The branch that moves the readable bytes to the front: a memcpy within the storage, which is
-- undefined when the two regions overlap.
unfoldable pub move_to_front : Buffer → Result Buffer
move_to_front b = do
  assert (ltb init_prepend_size b.read_index)
  let readable = readable_bytes b
  require (leb (b.read_index + readable) (length b.buffer)) bad_access
  require (leb (init_prepend_size + readable) b.read_index) overlap
  moved ← memcpy b.buffer init_prepend_size (slice b.read_index readable b.buffer)
  let c : Buffer = record {
    buffer = moved;
    read_index = init_prepend_size;
    write_index = add_size init_prepend_size readable;
  }
  assert (readable == readable_bytes c)
  ok c

-- The branch that takes new memory.
unfoldable pub grow : Buffer → ℕ → Result Buffer
grow b len = do
  wider ← resize b.buffer (add_size b.write_index len)
  ok (record b { buffer = wider })

unfoldable pub check_and_make_place : Buffer → ℕ → Result Buffer
check_and_make_place b len = if leb len (writable_bytes b) then ok b else (do
  c ←
      (if leb (add_size len init_prepend_size) (add_size (writable_bytes b) (prependable_bytes b))
        then move_to_front b
        else grow b len)
  assert (leb len (writable_bytes c))
  ok c)

unfoldable pub append : Buffer → List ℕ → Result Buffer
append b bytes = do
  c ← check_and_make_place b (length bytes)
  written ← memcpy c.buffer c.write_index bytes
  ok (record c { buffer = written; write_index = add_size c.write_index (length bytes) })

abbrev pub extra_size : ℕ
extra_size = 65536

-- How many bytes the two `iovec`s can take together.
unfoldable pub read_capacity : Buffer → ℕ
read_capacity b =
    if leb extra_size (writable_bytes b) then writable_bytes b else writable_bytes b + extra_size

-- `readv` is given the capacity and answers with the bytes that it stored, or `none` for -1.
-- The result is `n` (`none` for -1) and the buffer.
unfoldable pub read_fd : (ℕ → Option (List ℕ)) → Buffer → Result (Option ℕ × Buffer)
read_fd readv b = elim (readv (read_capacity b)) [
  | none ↦ ok (none, b)
  | some bytes ↦ (do
    let writable = writable_bytes b
    stored ← memcpy b.buffer b.write_index (take writable bytes)
    if leb (length bytes) writable
        then ok (
          some (length bytes),
          record b { buffer = stored; write_index = add_size b.write_index (length bytes) },
        )
        else (do
          c ←
              append (record b { buffer = stored; write_index = length stored })
                (drop writable bytes)
          ok (some (length bytes), c)))
]

-- Does the text start with the pattern?
unfoldable pub starts_with : List ℕ → List ℕ → Bool
starts_with [] text = true
starts_with (p ∷ ps) [] = false
starts_with (p ∷ ps) (x ∷ xs) = (p == x) && starts_with ps xs

-- `std::search`: the position of the first occurrence, or the length of the text.
unfoldable pub search_for : List ℕ → List ℕ → ℕ
search_for pattern_ [] = 0
search_for pattern_ (x ∷ xs) =
    let rest = search_for pattern_ xs in if starts_with pattern_ (x ∷ xs) then 0 else suc rest

abbrev pub crlf : List ℕ
crlf = 13 ∷ 10 ∷ []

-- `none` is the null pointer.
unfoldable pub find_crlf : Buffer → Option ℕ
find_crlf b =
    let found = b.read_index + search_for crlf (slice b.read_index (readable_bytes b) b.buffer) in
    if found == b.write_index then none else some found
