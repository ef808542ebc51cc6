-- ===== src/Logger/AsyncLogging/Ownership.antt =====
-- No buffer is used after it was moved, and the writer always finds its spare buffers again.
use wethands.Prelude.{
  ℕ, ◌-◌, ◌≤◌, ◌≡◌, refl, Bool, true, false, Option, none, some, List, [], ◌∷◌, ◌++◌, ltb, length,
  length-append, length-take, take, Returns, Returns-bind, Bool-cases, inl, inr, arith, lt→ltb,
}
use wethands.Logger.AsyncLogging.{
  FixedBuffer, AsyncLogging, new_async_logging, available_bytes, append_fixed, fresh_buffer, append,
  spare, keep_few, collect, pop_back, reclaim, write_out, Event, logs, collects, writes_out, step,
  run,
}

-- Between two rounds the writer has both spare buffers. The current buffer is always there. When
-- the loggers used up the second one, some buffer is full; when the writer gave its second one
-- away, it has two buffers to write.
pub data IsOwned : AsyncLogging → Type 0 where
  resting :
      (buffers : List FixedBuffer) (current : FixedBuffer) (next : Option FixedBuffer)
      (written : List ℕ)
      → (next ≡ none → 1 ≤ length buffers)
      → IsOwned (record {
        running = true;
        buffers = buffers;
        current_buffer = some current;
        next_buffer = next;
        new_buffer1 = true;
        new_buffer2 = true;
        written = written;
        buffers_to_write = [];
      })
  writing :
      (buffers : List FixedBuffer) (current : FixedBuffer) (next : Option FixedBuffer)
      (written : List ℕ) (first : FixedBuffer) (others : List FixedBuffer) (spare2 : Bool)
      → (next ≡ none → 1 ≤ length buffers)
      → (spare2 ≡ false → 1 ≤ length others)
      → IsOwned (record {
        running = true;
        buffers = buffers;
        current_buffer = some current;
        next_buffer = next;
        new_buffer1 = false;
        new_buffer2 = spare2;
        written = written;
        buffers_to_write = first ∷ others;
      })

append_lem : (a : AsyncLogging) (line : List ℕ) → IsOwned a → Returns (append a line) IsOwned
unfolding append
append_lem a line (resting buffers current next written used) =
    elim (Bool-cases (ltb (length line) (available_bytes current))) [
      | inl fits ↦ rw fits (resting buffers (append_fixed current line) next written used)
      | inr full ↦ rw full (
          resting (buffers ++ current ∷ []) (append_fixed (fresh_buffer next) line) none written
            (λ e. omega (arith, length-append buffers (current ∷ []))))
    ]
append_lem a line (writing buffers current next written first others spare2 used two) =
    elim (Bool-cases (ltb (length line) (available_bytes current))) [
      | inl fits ↦
          rw fits
            (writing buffers (append_fixed current line) next written first others spare2 used two)
      | inr full ↦ rw full (
          writing (buffers ++ current ∷ []) (append_fixed (fresh_buffer next) line) none written
            first others spare2 (λ e. omega (arith, length-append buffers (current ∷ []))) two)
    ]

collect_lem :
    (buffers : List FixedBuffer) (current : FixedBuffer) (next : Option FixedBuffer)
    (written : List ℕ)
    → (next ≡ none → 1 ≤ length buffers)
    → Returns
        (collect (record {
          running = true;
          buffers = buffers;
          current_buffer = some current;
          next_buffer = next;
          new_buffer1 = true;
          new_buffer2 = true;
          written = written;
          buffers_to_write = [];
        }))
        IsOwned
unfolding collect spare
collect_lem [] current none written used = absurd (omega (arith, used refl))
collect_lem [] current (some b) written used =
    writing [] [] (some b) written current [] true (λ e. cc) (λ e. cc)
collect_lem (x ∷ xs) current none written used =
    writing [] [] (some []) written x (xs ++ current ∷ []) false (λ e. cc)
      (λ e. omega (arith, length-append xs (current ∷ [])))
collect_lem (x ∷ xs) current (some b) written used =
    writing [] [] (some b) written x (xs ++ current ∷ []) true (λ e. cc) (λ e. cc)

-- However many buffers are dropped, two are left of two or more, and one of one.
unfoldable pub kept : (first : FixedBuffer) (others : List FixedBuffer) → ℕ
kept first others = length (take 2 (keep_few (first ∷ others)))

pub kept_lem :
    (first : FixedBuffer) (others : List FixedBuffer)
    → (1 ≤ kept first others) × (1 ≤ length others → 2 ≤ kept first others)
unfolding kept keep_few
kept_lem first others = elim (Bool-cases (ltb 16 (length (first ∷ others)))) [
  | inl many ↦
      rw many (omega arith, λ h. omega (arith, length-take 1 (take 1 others), length-take 1 others))
  | inr few ↦ rw few (omega arith, λ h. omega (arith, length-take 1 others))
]

write_out_lem :
    (buffers : List FixedBuffer) (current : FixedBuffer) (next : Option FixedBuffer)
    (written : List ℕ) (first : FixedBuffer) (others : List FixedBuffer) (spare2 : Bool)
    → (next ≡ none → 1 ≤ length buffers)
    → (spare2 ≡ false → 1 ≤ length others)
    → Returns
        (write_out (record {
          running = true;
          buffers = buffers;
          current_buffer = some current;
          next_buffer = next;
          new_buffer1 = false;
          new_buffer2 = spare2;
          written = written;
          buffers_to_write = first ∷ others;
        }))
        IsOwned
unfolding write_out reclaim pop_back kept
write_out_lem buffers current next written first others true used two =
    rw (lt→ltb 0 _ (kept_lem first others).0) (resting buffers current next _ used)
write_out_lem buffers current next written first others false used two =
    rw
      (
        lt→ltb 0 _ (kept_lem first others).0,
        lt→ltb 0 (kept first others - 1) (omega (arith, (kept_lem first others).1 (two refl))),
      )
      (resting buffers current next _ used)

pub step_lem : (a : AsyncLogging) (e : Event) → IsOwned a → Returns (step a e) IsOwned
unfolding step
step_lem a (logs line) v = append_lem a line v
step_lem a collects (resting buffers current next written used) =
    collect_lem buffers current next written used
step_lem a collects (writing buffers current next written first others spare2 used two) =
    writing buffers current next written first others spare2 used two
step_lem a writes_out (resting buffers current next written used) =
    resting buffers current next written used
step_lem a writes_out (writing buffers current next written first others spare2 used two) =
    write_out_lem buffers current next written first others spare2 used two

-- Under any schedule of loggers and of the writer, from a state in which the buffers are owned as
-- they should be: no null buffer is used, the writer always finds as many buffers to take back as
-- it gave away, and the buffers are owned as they should be again.
pub run-IsOwned : (a : AsyncLogging) (es : List Event) → IsOwned a → Returns (run a es) IsOwned
unfolding run
run-IsOwned a [] v = v
run-IsOwned a (e ∷ es) v =
    Returns-bind IsOwned IsOwned (step a e) (λ a'. run a' es) (step_lem a e v)
      (λ a' v'. run-IsOwned a' es v')

pub new_async_logging-IsOwned : IsOwned new_async_logging
unfolding new_async_logging
new_async_logging-IsOwned = resting [] [] (some []) [] (λ e. cc)
