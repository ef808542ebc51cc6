-- ===== src/Net/Buffer/ReadFd.antt =====
-- `read_fd`: what the kernel stored over two blocks ends up at the end of the contents.
use mathlib.Core.List.{append_assoc}
use wethands.Prelude.{
  add_size, ℕ, ◌+◌, ◌-◌, ◌≤◌, ◌≡◌, refl, ap, ◌∙◌, Option, none, some, List, ◌++◌, length, take,
  drop, ◌<◌, ok, Unless, Unless-bind, Unless-map, Never, arith, ◌>>=◌, leb, leb→le, if◌then◌else◌,
  Option-cases, Bool-cases, inl, inr, length-take, length-drop,
}
use wethands.Prelude.Slices.{overwrite, take-all, take-append-drop}
use wethands.Prelude.Writes.{length-overwrite}
use wethands.Net.Buffer.{
  Buffer, max_size, init_prepend_size, extra_size, writable_bytes, memcpy, append, read_capacity,
  read_fd,
}
use wethands.Net.Buffer.Laws.{IsValid, contents, writable_bytes-sub, readable_bytes-sub}
use wethands.Net.Buffer.Place.{memcpy_lem, IsCrowded}
use wethands.Net.Buffer.Append.{Appended, stored-Appended, append_lem}

-- readv(2) stores no more bytes than the blocks take.
abbrev pub IsReadv : (ℕ → Option (List ℕ)) → Type 0
IsReadv readv = (n : ℕ) (bytes : List ℕ) → readv n ≡ some bytes → length bytes ≤ n

-- What `read_fd` returns for an answer of the kernel.
abbrev pub Reads : Option (List ℕ) → Buffer → Option ℕ × Buffer → Type 0
Reads none b (n, c) = (n ≡ none) × (c ≡ b)
Reads (some bytes) b (n, c) = (n ≡ some (length bytes)) × Appended b bytes c

-- More bytes came than fitted, and the readable bytes, which then fill the storage, would move over
-- themselves.
abbrev pub Overran : Option (List ℕ) → Buffer → Type 0
Overran none b = Never
Overran (some bytes) b =
    (writable_bytes b < length bytes)
    × (init_prepend_size < b.read_index)
    × (b.read_index < init_prepend_size + (length b.buffer - b.read_index))

module _ (b : Buffer) (bytes : List ℕ) (v : IsValid b) where
  abbrev first : List ℕ
  first = take (writable_bytes b) bytes

  stored : List ℕ
  stored = overwrite b.buffer b.write_index first

  -- The bytes that fitted the buffer, with the write index moved over them.
  filled-Appended :
      Appended b first
        (record b { buffer = stored; write_index = add_size b.write_index (length first) })
  unfolding stored
  filled-Appended = stored-Appended b first v (omega (arith, length-take (writable_bytes b) bytes))

  length-stored : length stored ≡ length b.buffer
  unfolding stored
  length-stored =
      length-overwrite b.buffer b.write_index first
        (omega (arith, length-take (writable_bytes b) bytes, writable_bytes-sub v))

  memcpy-first : memcpy b.buffer b.write_index first ≡ ok stored
  unfolding stored
  memcpy-first =
      memcpy_lem b.buffer b.write_index first
        (omega (arith, length-take (writable_bytes b) bytes, writable_bytes-sub v))

  -- All bytes fitted the buffer.
  within-Appended :
      length bytes ≤ writable_bytes b
      → Appended b bytes
          (record b { buffer = stored; write_index = add_size b.write_index (length bytes) })
  within-Appended h = rw all at filled-Appended
    where
      all : first ≡ bytes
      all = take-all (writable_bytes b) bytes h

  -- The rest is appended to the buffer that the kernel filled.
  beyond-Appended :
      writable_bytes b < length bytes
      → length b.buffer + (length bytes - writable_bytes b) ≤ max_size
      → Unless
          (Overran (some bytes) b)
          (append
            (record b { buffer = stored; write_index = length stored })
            (drop (writable_bytes b) bytes))
          (Appended b bytes)
  beyond-Appended h small =
      Unless-map (IsCrowded full) (Overran (some bytes) b)
        (Appended full (drop (writable_bytes b) bytes)) (Appended b bytes) _
        (append_lem full (drop (writable_bytes b) bytes) full-Appended.0
          (omega (arith, length-stored, length-drop (writable_bytes b) bytes)))
        (λ q. (h, q.0, omega (arith, q.1, length-stored, readable_bytes-sub full-Appended.0)))
        λ c out. (
          out.0,
          out.1
              ∙ ap (λ l. l ++ drop (writable_bytes b) bytes) full-Appended.1
              ∙ append_assoc (contents b) first (drop (writable_bytes b) bytes)
              ∙ ap (λ l. contents b ++ l) (take-append-drop (writable_bytes b) bytes),
          omega (arith, out.2, length-stored, length-drop (writable_bytes b) bytes),
        )
    where
      full : Buffer
      full = record b { buffer = stored; write_index = length stored }

      at_end : add_size b.write_index (length first) ≡ length stored
      at_end =
          omega (arith, length-stored, length-take (writable_bytes b) bytes, writable_bytes-sub v)

      full-Appended : Appended b first full
      full-Appended = rw at_end at filled-Appended

-- On -1 `read_fd` leaves the buffer as before; otherwise the bytes that the kernel stored are
-- appended, whether they fitted the buffer or went over into the stack block. It faults in no way
-- but one: when bytes went over into the stack block and the readable bytes, which then fill the
-- storage, would move over themselves, it may stop at a memcpy between overlapping regions.
pub read_fd_lem :
    (readv : ℕ → Option (List ℕ)) (b : Buffer)
    → IsReadv readv
    → IsValid b
    → length b.buffer + extra_size ≤ max_size
    → Unless
        (Overran (readv (read_capacity b)) b)
        (read_fd readv b)
        (Reads (readv (read_capacity b)) b)
unfolding read_fd
read_fd_lem readv b kernel v small = elim (Option-cases (readv (read_capacity b))) [
  | inl failed ↦ rw (failed, read_fd) (refl, refl)
  | inr (bytes, got) ↦ rw (got, read_fd) (stores bytes (kernel (read_capacity b) bytes got))
]
  where
    stores :
        (bytes : List ℕ)
        → length bytes ≤ read_capacity b
        → Unless
            (Overran (some bytes) b)
            (memcpy b.buffer b.write_index (take (writable_bytes b) bytes) >>= λ stored'.
              if leb (length bytes) (writable_bytes b)
              then ok (
                some (length bytes),
                record b { buffer = stored'; write_index = add_size b.write_index (length bytes) },
              )
              else (append
                    (record b { buffer = stored'; write_index = length stored' })
                    (drop (writable_bytes b) bytes)
                  >>= λ c. ok (some (length bytes), c)))
            (Reads (some bytes) b)
    stores bytes few = elim (Bool-cases (leb (length bytes) (writable_bytes b))) [
      | inl fits ↦
          rw (memcpy-first b bytes v, fits) (refl, within-Appended b bytes v (leb→le _ _ fits))
      | inr over ↦
          rw (memcpy-first b bytes v, over)
            (Unless-bind (Overran (some bytes) b) (Appended b bytes) (Reads (some bytes) b) _ _
              (beyond-Appended b bytes v (ground arith)
                (unfold read_capacity in ground (arith, writable_bytes-sub v)))
              (λ c a. (refl, a)))
    ]
