-- ===== src/Net/Buffer/Place.antt =====
-- `check_and_make_place`: room for new bytes by moving the contents or taking new memory.
use wethands.Prelude.{
  add_size, ℕ, ◌+◌, ◌-◌, ◌≤◌, ◌<◌, ◌≡◌, refl, ap, ◌∙◌, List, ◌++◌, leb, if◌then◌else◌, length, take,
  replicate, ok, Returns, Unless, Unless-bind, Unless_of, true, arith, Bool-cases, inl, inr,
  length-replicate, length-append, le→leb, lt→ltb, leb→le, ==_iff,
}
use wethands.Prelude.Slices.{slice, overwrite, take-all}
use wethands.Prelude.Writes.{length-slice, length-overwrite, slice-overwrite_at, slice-append_le}
use wethands.Net.Buffer.{
  Buffer, max_size, init_prepend_size, readable_bytes, writable_bytes, prependable_bytes, memcpy,
  resize, move_to_front, grow, check_and_make_place,
}
use wethands.Net.Buffer.Laws.{IsValid, contents, readable_bytes-sub, writable_bytes-sub}

-- A block write inside the storage.
pub memcpy_lem :
    (xs : List ℕ) (i : ℕ) (ys : List ℕ)
    → i + length ys ≤ length xs
    → memcpy xs i ys ≡ ok (overwrite xs i ys)
unfolding memcpy
memcpy_lem xs i ys h = rw (le→leb _ _ h)

-- The same readable bytes, with room for `len` more, in at most `len` more bytes of storage.
abbrev pub HasPlace : Buffer → ℕ → Buffer → Type 0
HasPlace b len c =
    IsValid c
    × (contents c ≡ contents b)
    × (len ≤ writable_bytes c)
    × (length c.buffer ≤ length b.buffer + len)
    × (b.read_index ≡ init_prepend_size → c.read_index ≡ init_prepend_size)

-- The readable bytes would move over themselves.
abbrev pub IsCrowded : Buffer → Type 0
IsCrowded b =
    (init_prepend_size < b.read_index) × (b.read_index < init_prepend_size + readable_bytes b)

module _ (b : Buffer) (len : ℕ) (v : IsValid b) where
  -- The assertion in this branch of the code holds whenever the branch is taken.
  pub move_to_front_lem :
      writable_bytes b < len
      → len + init_prepend_size ≤ writable_bytes b + prependable_bytes b
      → Unless (IsCrowded b) (move_to_front b) (HasPlace b len)
  unfolding move_to_front prependable_bytes
  move_to_front_lem short fits =
      elim (Bool-cases (leb (init_prepend_size + readable_bytes b) b.read_index)) [
        | inl apart ↦ moves_apart apart
        | inr over ↦
            rw
              (
                lt→ltb init_prepend_size b.read_index (omega (arith, writable_bytes-sub v)),
                le→leb (b.read_index + readable_bytes b) (length b.buffer)
                    (omega (arith, readable_bytes-sub v)),
                over,
              )
              (omega (arith, writable_bytes-sub v), ground (arith, over))
      ]
    where
      held : List ℕ
      held = slice b.read_index (readable_bytes b) b.buffer

      held_length : length held ≡ readable_bytes b
      held_length =
          length-slice b.read_index (readable_bytes b) b.buffer
            (omega (arith, readable_bytes-sub v))

      moved : Buffer
      moved = record {
        buffer = overwrite b.buffer init_prepend_size held;
        read_index = init_prepend_size;
        write_index = add_size init_prepend_size (readable_bytes b);
      }

      moved_length : length moved.buffer ≡ length b.buffer
      moved_length =
          length-overwrite b.buffer init_prepend_size held
            (omega (arith, held_length, readable_bytes-sub v))

      valid : IsValid moved
      valid = omega (arith, moved_length, readable_bytes-sub v)

      same_count : readable_bytes b ≡ readable_bytes moved
      same_count = omega (arith, readable_bytes-sub valid, readable_bytes-sub v)

      same : contents moved ≡ contents b
      same =
          unfold contents in
          ap (λ k. slice init_prepend_size k moved.buffer)
            (omega (arith, readable_bytes-sub v, held_length))
          ∙ slice-overwrite_at b.buffer init_prepend_size held v.room
          ∙ ap (λ k. slice b.read_index k b.buffer) (readable_bytes-sub v)

      moves_apart :
          leb (init_prepend_size + readable_bytes b) b.read_index ≡ true
          → Unless (IsCrowded b) (move_to_front b) (HasPlace b len)
      moves_apart apart =
          rw
            (
              lt→ltb init_prepend_size b.read_index (omega (arith, writable_bytes-sub v)),
              le→leb (b.read_index + readable_bytes b) (length b.buffer)
                  (omega (arith, readable_bytes-sub v)),
              apart,
              memcpy_lem b.buffer init_prepend_size held
                  (omega (arith, held_length, readable_bytes-sub v)),
            )
            (rw ((==_iff (readable_bytes b) (readable_bytes moved)).1 same_count) (
              valid,
              same,
              omega (
                arith,
                writable_bytes-sub valid,
                moved_length,
                writable_bytes-sub v,
                readable_bytes-sub v,
              ),
              omega (arith, moved_length),
              λ h. refl,
            ))

  grow_lem :
      writable_bytes b < len
      → length b.buffer + len ≤ max_size
      → Returns (grow b len) (HasPlace b len)
  unfolding grow resize
  grow_lem short small = rw (le→leb (add_size b.write_index len) max_size (omega arith)) (
    valid,
    same,
    omega (arith, writable_bytes-sub valid, wider_length),
    omega (arith, wider_length, v.within),
    λ h. h,
  )
    where
      wider : List ℕ
      wider =
          take (add_size b.write_index len) b.buffer
          ++ replicate (add_size b.write_index len - length b.buffer) 0

      kept : take (add_size b.write_index len) b.buffer ≡ b.buffer
      kept = take-all _ b.buffer (omega (arith, writable_bytes-sub v))

      wider_length : length wider ≡ b.write_index + len
      wider_length = omega (
        arith,
        length-append (take (add_size b.write_index len) b.buffer)
            (replicate (add_size b.write_index len - length b.buffer) 0),
        ap length kept,
        length-replicate {A = ℕ} (add_size b.write_index len - length b.buffer) 0,
        writable_bytes-sub v,
      )

      valid : IsValid (record b { buffer = wider })
      valid = omega (arith, wider_length, writable_bytes-sub v)

      same : contents (record b { buffer = wider }) ≡ contents b
      same =
          unfold contents in
          ap
            (λ l.
              slice b.read_index (b.write_index - b.read_index)
                (l ++ replicate (add_size b.write_index len - length b.buffer) 0))
            kept
          ∙ slice-append_le b.read_index (b.write_index - b.read_index) b.buffer _ (omega arith)

-- The code makes room for `len` bytes without a fault, and the readable bytes stay, unless they would
-- move over themselves.
pub check_and_make_place_lem :
    (b : Buffer) (len : ℕ)
    → IsValid b
    → length b.buffer + len ≤ max_size
    → Unless (IsCrowded b) (check_and_make_place b len) (HasPlace b len)
unfolding check_and_make_place
check_and_make_place_lem b len v small = elim (Bool-cases (leb len (writable_bytes b))) [
  | inl fits ↦ rw fits (v, refl, leb→le _ _ fits, omega arith, λ h. h)
  | inr short ↦ rw short (
      Unless-bind (IsCrowded b) (HasPlace b len) (HasPlace b len) _ _ (placed (ground arith))
        (λ c p. rw (le→leb _ _ p.2) p))
]
  where
    placed :
        writable_bytes b < len
        → Unless
            (IsCrowded b)
            (if leb
                (add_size len init_prepend_size)
                (add_size (writable_bytes b) (prependable_bytes b))
              then move_to_front b
              else grow b len)
            (HasPlace b len)
    placed short =
        elim (Bool-cases (
          leb (add_size len init_prepend_size)
            (add_size (writable_bytes b) (prependable_bytes b)))) [
              | inl moves ↦ rw moves (
                  move_to_front_lem b len v short (
                    unfold prependable_bytes in
                    omega (arith, leb→le _ _ moves, writable_bytes-sub v)))
              | inr grows ↦
                  rw grows
                    (Unless_of (IsCrowded b) (HasPlace b len) _ (grow_lem b len v short small))
            ]
