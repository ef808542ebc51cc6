-- ===== src/Logger/AsyncLogging/Steps.antt =====
-- What a call of `Append` and the writer do to the lines that were logged.
use mathlib.Core.List.{append_assoc, append-nil}
use wethands.Prelude.{
  ℕ, ◌+◌, ◌*◌, ◌-◌, ◌<◌, ◌≤◌, ◌≡◌, refl, sym, ap, ◌∙◌, Bool, true, false, Option, none, some, List,
  [], ◌∷◌, ◌++◌, ltb, length, length-append, Returns, Bool-cases, inl, inr, lt→ltb, arith,
}
use wethands.Logger.AsyncLogging.{
  FixedBuffer, AsyncLogging, available_bytes, append_fixed, fresh_buffer, append, large_buffer_size,
  spare, flatten, keep_few, collect, pop_back, reclaim, write_out,
}
use wethands.Logger.AsyncLogging.Ownership.{IsOwned, resting, writing, kept, kept_lem}

unfoldable pub text : Option FixedBuffer → List ℕ
text none = []
text (some b) = b

-- What was logged is what was written, what is being written and what is buffered. The buffers that
-- are full are at least half full on the average, since each with the line behind it is over full.
pub record IsComplete (logged : List ℕ) (a : AsyncLogging) : Type 0 where
  pub whole :
      a.written ++ (flatten a.buffers_to_write ++ (flatten a.buffers ++ text a.current_buffer))
      ≡ logged
  pub spare_empty : fresh_buffer a.next_buffer ≡ []
  pub dense :
      length a.buffers * large_buffer_size
      ≤ 2 * length (flatten a.buffers) + length (text a.current_buffer)
  pub few : length a.buffers_to_write ≤ 16

flatten-snoc : (bs : List FixedBuffer) (b : FixedBuffer) → flatten (bs ++ b ∷ []) ≡ flatten bs ++ b
unfolding flatten
flatten-snoc [] b = append-nil b
flatten-snoc (x ∷ bs) b = ap (λ l. x ++ l) (flatten-snoc bs b) ∙ sym (append_assoc x (flatten bs) b)

-- A line behind all that is there.
append_behind :
    (w t f b line : List ℕ) → w ++ (t ++ (f ++ (b ++ line))) ≡ (w ++ (t ++ (f ++ b))) ++ line
append_behind w t f b line =
    ap (λ l. w ++ (t ++ l)) (sym (append_assoc f b line))
    ∙ ap (λ l. w ++ l) (sym (append_assoc t (f ++ b) line))
    ∙ sym (append_assoc w (t ++ (f ++ b)) line)

-- A line that does not fit fills the buffer.
over_full : (line b : ℕ) → ltb line (large_buffer_size - b) ≡ false → large_buffer_size ≤ b + line
over_full line b full = ground (arith, full)

-- While the log runs, its current buffer is there.
current-IsOwned :
    (a : AsyncLogging)
    → IsOwned a
    → (b : FixedBuffer) × ((a.running ≡ true) × (a.current_buffer ≡ some b))
current-IsOwned a (resting buffers current next written used) = (current, (refl, refl))
current-IsOwned a (writing buffers current next written first others spare2 used two) =
    (current, (refl, refl))

-- With 16 buffers at most all are written.
written_lem :
    (written : List ℕ) (bs : List FixedBuffer) (rest : List ℕ)
    → length bs ≤ 16
    → (written ++ flatten (keep_few bs)) ++ ([] ++ rest) ≡ written ++ (flatten bs ++ rest)
unfolding keep_few
written_lem written bs rest few =
    rw (keep_few, not_more (length bs) few) (append_assoc written (flatten bs) rest)
  where
    not_more : (n : ℕ) → n ≤ 16 → ltb 16 n ≡ false
    not_more n h = ground arith

module _ (logged : List ℕ) where
  pub append-IsComplete :
      (a : AsyncLogging) (line : List ℕ)
      → IsOwned a
      → IsComplete logged a
      → length line < large_buffer_size
      → Returns (append a line) (IsComplete (logged ++ line))
  unfolding append append_fixed available_bytes text flatten fresh_buffer
  append-IsComplete a line v c short =
      let (b, (runs, has)) = current-IsOwned a v in
      let same : text a.current_buffer ≡ b = ap text has in
      let behind : a.written ++ (flatten a.buffers_to_write ++ (flatten a.buffers ++ (b ++ line)))
          ≡ logged ++ line =
        append_behind a.written (flatten a.buffers_to_write) (flatten a.buffers) b line
        ∙ ap (λ l. l ++ line)
            (ap (λ l. a.written ++ (flatten a.buffers_to_write ++ (flatten a.buffers ++ l)))
                (sym same)
              ∙ c.whole) in
      elim (Bool-cases (ltb (length line) (available_bytes b))) [
        | inl fits ↦
            rw (runs, has, fits)
              (record {
                whole = behind;
                spare_empty = c.spare_empty;
                dense = omega (arith, c.dense, ap length same, length-append b line);
                few = c.few;
              })
        | inr full ↦
            let fresh : append_fixed (fresh_buffer a.next_buffer) line ≡ line =
              ap (λ f. append_fixed f line) c.spare_empty
              ∙ (rw (lt→ltb (length line) (large_buffer_size - 0) (omega arith)) refl) in
            let over : large_buffer_size ≤ length b + length line =
              over_full (length line) (length b) full in
            let tail : flatten (a.buffers ++ b ∷ [])
                  ++ append_fixed (fresh_buffer a.next_buffer) line
                ≡ flatten a.buffers ++ (b ++ line) =
              ap (λ l. flatten (a.buffers ++ b ∷ []) ++ l) fresh
              ∙ ap (λ l. l ++ line) (flatten-snoc a.buffers b)
              ∙ append_assoc (flatten a.buffers) b line in
            rw (runs, has, full)
              (record {
                whole = ap (λ l. a.written ++ (flatten a.buffers_to_write ++ l)) tail ∙ behind;
                spare_empty = refl;
                dense = omega (
                  arith,
                  c.dense,
                  over,
                  ap length same,
                  ap length fresh,
                  length-append a.buffers (b ∷ []),
                  ap length (flatten-snoc a.buffers b),
                  length-append (flatten a.buffers) b,
                );
                few = c.few;
              })
      ]

  taken_lem :
      (buffers : List FixedBuffer) (current : FixedBuffer) (written : List ℕ)
      → length logged < 8 * large_buffer_size
      → length buffers * large_buffer_size ≤ 2 * length (flatten buffers) + length current
      → written ++ (flatten buffers ++ current) ≡ logged
      → (length (buffers ++ current ∷ []) ≤ 16)
        × (written ++ (flatten (buffers ++ current ∷ []) ++ []) ≡ logged)
  taken_lem buffers current written small dense whole = (
    omega (
      arith,
      dense,
      length-append buffers (current ∷ []),
      ap length whole,
      length-append written (flatten buffers ++ current),
      length-append (flatten buffers) current,
    ),
    ap (λ l. written ++ l)
          (append-nil (flatten (buffers ++ current ∷ [])) ∙ flatten-snoc buffers current)
        ∙ whole,
  )

  -- With less than 8 large buffers of bytes in all, the writer takes 16 buffers at most.
  pub collect-IsComplete :
      (buffers : List FixedBuffer) (current : FixedBuffer) (next : Option FixedBuffer)
      (written : List ℕ)
      → length logged < 8 * large_buffer_size
      → IsComplete logged (record {
        running = true;
        buffers = buffers;
        current_buffer = some current;
        next_buffer = next;
        new_buffer1 = true;
        new_buffer2 = true;
        written = written;
        buffers_to_write = [];
      })
      → Returns
          (collect (record {
            running = true;
            buffers = buffers;
            current_buffer = some current;
            next_buffer = next;
            new_buffer1 = true;
            new_buffer2 = true;
            written = written;
            buffers_to_write = [];
          }))
          (IsComplete logged)
  unfolding collect spare flatten text fresh_buffer
  collect-IsComplete buffers current none written small c =
      let (few_taken, taken) = taken_lem buffers current written small c.dense c.whole in
      record { whole = taken; spare_empty = refl; dense = omega arith; few = few_taken }
  collect-IsComplete buffers current (some b) written small c =
      let (few_taken, taken) = taken_lem buffers current written small c.dense c.whole in
      record { whole = taken; spare_empty = c.spare_empty; dense = omega arith; few = few_taken }

  pub write_out-IsComplete :
      (buffers : List FixedBuffer) (current : FixedBuffer) (next : Option FixedBuffer)
      (written : List ℕ) (first : FixedBuffer) (others : List FixedBuffer) (spare2 : Bool)
      → (spare2 ≡ false → 1 ≤ length others)
      → IsComplete logged (record {
        running = true;
        buffers = buffers;
        current_buffer = some current;
        next_buffer = next;
        new_buffer1 = false;
        new_buffer2 = spare2;
        written = written;
        buffers_to_write = first ∷ others;
      })
      → Returns
          (write_out (record {
            running = true;
            buffers = buffers;
            current_buffer = some current;
            next_buffer = next;
            new_buffer1 = false;
            new_buffer2 = spare2;
            written = written;
            buffers_to_write = first ∷ others;
          }))
          (IsComplete logged)
  unfolding write_out reclaim pop_back kept flatten text
  write_out-IsComplete buffers current next written first others true two c =
      rw (lt→ltb 0 _ (kept_lem first others).0) (record {
        whole =
            written_lem written (first ∷ others) (flatten buffers ++ text (some current)) c.few
            ∙ c.whole;
        spare_empty = c.spare_empty;
        dense = c.dense;
        few = omega arith;
      })
  write_out-IsComplete buffers current next written first others false two c =
      rw
        (
          lt→ltb 0 _ (kept_lem first others).0,
          lt→ltb 0 (kept first others - 1) (omega (arith, (kept_lem first others).1 (two refl))),
        )
        (record {
          whole =
              written_lem written (first ∷ others) (flatten buffers ++ text (some current)) c.few
              ∙ c.whole;
          spare_empty = c.spare_empty;
          dense = c.dense;
          few = omega arith;
        })
