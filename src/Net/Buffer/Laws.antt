-- ===== src/Net/Buffer/Laws.antt =====
-- The invariant of a buffer, the bytes that it holds, and the operations that move no memory.
use wethands.Prelude.{
  add_size, ℕ, ◌+◌, ◌-◌, ◌≤◌, ◌<◌, ◌≡◌, refl, sym, ap, ◌∙◌, List, [], ◌++◌, ltb, length, take, drop,
  Returns, Returns-ok, Returns-bind, Returns-map, ltb→lt, arith, Bool-cases, inl, inr,
  length-replicate, le→leb,
}
use wethands.Prelude.Slices.{slice, take-all, drop-all, drop-take, drop-drop, take-take}
use wethands.Prelude.Writes.{length-slice, slice-add}
use wethands.Net.Buffer.{
  Buffer, peek, max_size, init_prepend_size, readable_bytes, writable_bytes, prependable_bytes,
  new_buffer, retrieve, retrieve_all, retrieve_until, retrieve_as_string, retrieve_all_as_string,
  has_writen, unwrite,
}

pub record IsValid (b : Buffer) : Type 0 where
  pub ordered : b.read_index ≤ b.write_index
  pub within : b.write_index ≤ length b.buffer
  pub room : init_prepend_size ≤ length b.buffer
  pub small : length b.buffer ≤ max_size

-- The readable bytes, oldest first.
unfoldable pub contents : Buffer → List ℕ
contents b = slice b.read_index (b.write_index - b.read_index) b.buffer

pub readable_bytes-sub : {b : Buffer} → IsValid b → readable_bytes b ≡ b.write_index - b.read_index
unfolding readable_bytes
readable_bytes-sub v = omega arith

pub writable_bytes-sub :
    {b : Buffer} → IsValid b → writable_bytes b ≡ length b.buffer - b.write_index
unfolding writable_bytes
writable_bytes-sub v = omega arith

pub length-contents : (b : Buffer) → IsValid b → length (contents b) ≡ readable_bytes b
unfolding contents
length-contents b v =
    length-slice b.read_index (b.write_index - b.read_index) b.buffer (omega arith)
    ∙ sym (readable_bytes-sub v)

pub peek-contents : (b : Buffer) → IsValid b → peek b ≡ contents b
unfolding peek contents
peek-contents b v = ap (λ k. slice b.read_index k b.buffer) (readable_bytes-sub v)

-- A fresh buffer is valid and empty, and takes `n` bytes.
pub new_buffer_lem :
    (n : ℕ)
    → n + init_prepend_size ≤ max_size
    → Returns (new_buffer n) (λ b. IsValid b × (contents b ≡ []) × (writable_bytes b ≡ n))
unfolding new_buffer contents readable_bytes writable_bytes prependable_bytes
new_buffer_lem n h = ground (arith, length-replicate {A = ℕ} (add_size init_prepend_size n) 0)

-- Dropping from the contents is moving the read index.
drop-contents :
    (b : Buffer) (len : ℕ)
    → drop len (contents b)
      ≡ slice (b.read_index + len) (b.write_index - (b.read_index + len)) b.buffer
unfolding contents
drop-contents b len =
    drop-take len (b.write_index - b.read_index) (drop b.read_index b.buffer)
    ∙ ap (take (b.write_index - b.read_index - len)) (drop-drop len b.read_index b.buffer)
    ∙ ap (λ k. slice (b.read_index + len) k b.buffer) (omega arith)

retrieve_all-contents : (b : Buffer) → contents (retrieve_all b) ≡ []
unfolding contents retrieve_all
retrieve_all-contents b = refl

abbrev pub Retrieved : Buffer → ℕ → Buffer → Type 0
Retrieved b len c = IsValid c × (contents c ≡ drop len (contents b)) × (c.buffer ≡ b.buffer)

-- `retrieve` within the readable bytes drops that many from the front.
pub retrieve_lem :
    (b : Buffer) (len : ℕ)
    → IsValid b
    → len ≤ readable_bytes b
    → Returns (retrieve b len) (Retrieved b len)
unfolding retrieve
retrieve_lem b len v h = elim (Bool-cases (ltb len (readable_bytes b))) [
  | inl some_left ↦
      Returns-ok (Retrieved b len) _ (record b { read_index = b.read_index + len })
        (ground (arith, readable_bytes-sub v)) (left_over (ltb→lt _ _ some_left))
  | inr all_gone ↦
      Returns-ok (Retrieved b len) _ (retrieve_all b) (ground (arith, readable_bytes-sub v))
        (emptied (ground arith))
]
  where
    left_over :
        len < readable_bytes b → Retrieved b len (record b { read_index = b.read_index + len })
    left_over lt =
        (ground (arith, readable_bytes-sub v), unfold contents in sym (drop-contents b len), refl)

    emptied : readable_bytes b ≤ len → Retrieved b len (retrieve_all b)
    emptied le = (
      unfold retrieve_all in omega arith,
      unfold contents retrieve_all in
          sym (drop-all len (contents b) (omega (arith, length-contents b v))),
      unfold retrieve_all in refl,
    )

-- `retrieve_until` a pointer between the two indices drops what stands before it.
pub retrieve_until_lem :
    (b : Buffer) (end : ℕ)
    → IsValid b
    → b.read_index ≤ end
    → end ≤ b.write_index
    → Returns (retrieve_until b end) (Retrieved b (end - b.read_index))
unfolding retrieve_until
retrieve_until_lem b end v lo hi =
    rw (le→leb _ _ lo, le→leb _ _ hi)
      (retrieve_lem b (end - b.read_index) v (omega (arith, readable_bytes-sub v)))

abbrev pub TakenOut : Buffer → ℕ → List ℕ × Buffer → Type 0
TakenOut b len (s, c) = (s ≡ take len (contents b)) × Retrieved b len c

abbrev pub Emptied : Buffer → List ℕ × Buffer → Type 0
Emptied b (s, c) = (s ≡ contents b) × (contents c ≡ []) × IsValid c

-- The string that is taken out is the front of the contents, and the rest stays.
pub retrieve_as_string_lem :
    (b : Buffer) (len : ℕ)
    → IsValid b
    → len ≤ readable_bytes b
    → Returns (retrieve_as_string b len) (TakenOut b len)
unfolding retrieve_as_string
retrieve_as_string_lem b len v h =
    rw
      (
        le→leb _ _ h,
        le→leb (b.read_index + len) (length b.buffer) (omega (arith, readable_bytes-sub v)),
      )
      (Returns-bind (Retrieved b len) (TakenOut b len) _ _ (retrieve_lem b len v h)
        (λ c r. (front, r)))
  where
    front : slice b.read_index len b.buffer ≡ take len (contents b)
    front =
        unfold contents in
        sym (
          take-take len (b.write_index - b.read_index) (drop b.read_index b.buffer)
            (omega (arith, readable_bytes-sub v)))

-- Taking everything out gives the contents and leaves the buffer empty.
pub retrieve_all_as_string_lem :
    (b : Buffer) → IsValid b → Returns (retrieve_all_as_string b) (Emptied b)
unfolding retrieve_all_as_string
retrieve_all_as_string_lem b v =
    Returns-map (TakenOut b (readable_bytes b)) (Emptied b) _
      (retrieve_as_string_lem b (readable_bytes b) v (omega arith))
      λ a out. (
        out.0 ∙ take-all (readable_bytes b) (contents b) (omega (arith, length-contents b v)),
        out.1.1 ∙ drop-all (readable_bytes b) (contents b) (omega (arith, length-contents b v)),
        out.1.0,
      )

-- Bytes that were stored behind the write index become readable.
pub has_writen_lem :
    (b : Buffer) (len : ℕ)
    → IsValid b
    → len ≤ writable_bytes b
    → Returns
        (has_writen b len)
        (λ c. IsValid c × (contents c ≡ contents b ++ slice b.write_index len b.buffer))
unfolding has_writen contents
has_writen_lem b len v h = rw (le→leb _ _ h) (
  omega (arith, writable_bytes-sub v),
  ap (λ k. slice b.read_index k b.buffer) (omega (arith, writable_bytes-sub v))
      ∙ slice-add b.read_index (b.write_index - b.read_index) len b.buffer
      ∙ ap (λ k. slice b.read_index (b.write_index - b.read_index) b.buffer ++ slice k len b.buffer)
          (omega arith),
)

-- `unwrite` takes bytes off the end of the contents.
pub unwrite_lem :
    (b : Buffer) (len : ℕ)
    → IsValid b
    → len ≤ readable_bytes b
    → Returns
        (unwrite b len)
        (λ c. IsValid c × (contents c ≡ take (readable_bytes b - len) (contents b)))
unfolding unwrite contents
unwrite_lem b len v h = rw (le→leb _ _ h) (
  omega (arith, readable_bytes-sub v),
  ap (λ k. slice b.read_index k b.buffer) (omega (arith, readable_bytes-sub v))
      ∙ sym (
          take-take (readable_bytes b - len) (b.write_index - b.read_index)
            (drop b.read_index b.buffer) (omega (arith, readable_bytes-sub v))),
)
