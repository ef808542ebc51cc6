-- ===== src/Net/Buffer/Append.antt =====
-- `append` and `prepend`: the buffer is a queue of bytes with a few free bytes before it.
use wethands.Prelude.{
  add_size, sub_size, ℕ, ◌+◌, ◌-◌, ◌≤◌, ◌≡◌, ap, ◌∙◌, List, ◌++◌, length, ok, Returns, Unless,
  Unless-bind, Unless-map, Unless-Returns, arith, le→leb, ◌>>=◌,
}
use mathlib.Core.Path.{ap₂}
use wethands.Prelude.Slices.{slice, overwrite}
use wethands.Prelude.Writes.{
  length-overwrite, slice-overwrite_at, slice-overwrite_before, slice-overwrite_after, slice-add,
}
use wethands.Net.Buffer.{
  Buffer, max_size, init_prepend_size, writable_bytes, prependable_bytes, memcpy, append, prepend,
}
use wethands.Net.Buffer.Laws.{IsValid, contents, writable_bytes-sub}
use wethands.Net.Buffer.Place.{HasPlace, IsCrowded, memcpy_lem, check_and_make_place_lem}

abbrev pub Appended : Buffer → List ℕ → Buffer → Type 0
Appended b bytes c =
    IsValid c
    × (contents c ≡ contents b ++ bytes)
    × (length c.buffer ≤ length b.buffer + length bytes)

-- Storing bytes behind the write index appends them.
pub stored-Appended :
    (b : Buffer) (bytes : List ℕ)
    → IsValid b
    → length bytes ≤ writable_bytes b
    → Appended b bytes (record b {
      buffer = overwrite b.buffer b.write_index bytes;
      write_index = add_size b.write_index (length bytes);
    })
stored-Appended b bytes v fits = (
  omega (arith, same_length, writable_bytes-sub v),
  unfold contents in
      ap (λ k. slice b.read_index k stored) (omega (arith, writable_bytes-sub v))
      ∙ slice-add b.read_index (b.write_index - b.read_index) (length bytes) stored
      ∙ ap₂ ◌++◌
          (slice-overwrite_before b.buffer b.write_index bytes b.read_index
            (b.write_index - b.read_index) v.within (omega arith))
          (ap (λ k. slice k (length bytes) stored) (omega arith)
            ∙ slice-overwrite_at b.buffer b.write_index bytes v.within),
  omega (arith, same_length),
)
  where
    stored : List ℕ
    stored = overwrite b.buffer b.write_index bytes

    same_length : length stored ≡ length b.buffer
    same_length =
        length-overwrite b.buffer b.write_index bytes (omega (arith, writable_bytes-sub v))

-- Bytes that start at the front keep their place.
abbrev pub StaysFront : Buffer → Buffer → Type 0
StaysFront b c = b.read_index ≡ init_prepend_size → c.read_index ≡ init_prepend_size

append_or_overlap :
    (b : Buffer) (bytes : List ℕ)
    → IsValid b
    → length b.buffer + length bytes ≤ max_size
    → Unless (IsCrowded b) (append b bytes) (λ c. Appended b bytes c × StaysFront b c)
unfolding append
append_or_overlap b bytes v small =
    Unless-bind (IsCrowded b) (HasPlace b (length bytes)) (λ c. Appended b bytes c × StaysFront b c)
      _ _ (check_and_make_place_lem b (length bytes) v small) put
  where
    same_size :
        (c : Buffer)
        → IsValid c
        → length bytes ≤ writable_bytes c
        → length (overwrite c.buffer c.write_index bytes) ≡ length c.buffer
    same_size c w fits =
        length-overwrite c.buffer c.write_index bytes (omega (arith, writable_bytes-sub w))

    put :
        (c : Buffer)
        → HasPlace b (length bytes) c
        → Unless
            (IsCrowded b)
            (memcpy c.buffer c.write_index bytes >>= λ written.
              ok (record c {
                buffer = written;
                write_index = add_size c.write_index (length bytes);
              }))
            (λ d. Appended b bytes d × StaysFront b d)
    put c (w, same, fits, grown, front) =
        rw (memcpy_lem c.buffer c.write_index bytes (omega (arith, writable_bytes-sub w))) (
          let (u, e, g) = stored-Appended c bytes w fits in
          ((u, e ∙ ap (λ l. l ++ bytes) same, omega (arith, same_size c w fits)), front))

-- `append` adds the bytes at the end while the size fits a vector, and never faults, unless the
-- readable bytes would move over themselves.
pub append_lem :
    (b : Buffer) (bytes : List ℕ)
    → IsValid b
    → length b.buffer + length bytes ≤ max_size
    → Unless (IsCrowded b) (append b bytes) (Appended b bytes)
append_lem b bytes v small =
    Unless-map (IsCrowded b) (IsCrowded b) _ (Appended b bytes) _
      (append_or_overlap b bytes v small) (λ q. q) (λ c p. p.0)

-- On a buffer of which nothing was taken out, no bytes are moved.
pub append-front :
    (b : Buffer) (bytes : List ℕ)
    → IsValid b
    → b.read_index ≡ init_prepend_size
    → length b.buffer + length bytes ≤ max_size
    → Returns (append b bytes) (λ c. Appended b bytes c × (c.read_index ≡ init_prepend_size))
append-front b bytes v front small =
    Unless-Returns (IsCrowded b) (λ c. Appended b bytes c × (c.read_index ≡ init_prepend_size))
      (append b bytes)
      (Unless-map (IsCrowded b) (IsCrowded b) (λ c. Appended b bytes c × StaysFront b c)
        (λ c. Appended b bytes c × (c.read_index ≡ init_prepend_size)) (append b bytes)
        (append_or_overlap b bytes v small) (λ q. q) (λ c p. (p.0, p.1 front)))
      (λ q. absurd (omega (arith, q.0, front)))

-- `prepend` within the free bytes before the contents puts the bytes in front.
pub prepend_lem :
    (b : Buffer) (bytes : List ℕ)
    → IsValid b
    → length bytes ≤ prependable_bytes b
    → Returns (prepend b bytes) (λ c. IsValid c × (contents c ≡ bytes ++ contents b))
unfolding prepend prependable_bytes
prepend_lem b bytes v fits =
    rw
      (
        le→leb _ _ fits,
        memcpy_lem b.buffer (sub_size b.read_index (length bytes)) bytes (omega arith),
      )
      (
        omega (arith, same_length),
        (unfold contents in
            ap (λ k. slice start k moved) (omega arith)
            ∙ slice-add start (length bytes) (b.write_index - b.read_index) moved
            ∙ ap₂ ◌++◌ (slice-overwrite_at b.buffer start bytes (omega arith)) (
                ap (λ k. slice k (b.write_index - b.read_index) moved) (omega arith)
                ∙ slice-overwrite_after b.buffer start bytes b.read_index
                    (b.write_index - b.read_index) (omega arith) (omega arith))),
      )
  where
    start : ℕ
    start = sub_size b.read_index (length bytes)

    moved : List ℕ
    moved = overwrite b.buffer start bytes

    same_length : length moved ≡ length b.buffer
    same_length = length-overwrite b.buffer start bytes (omega arith)
