-- ===== src/Utils/FileUtil/Append.antt =====
-- What an append leaves in the file, and the number of bytes that it counts.
use wethands.Prelude.{
  ℕ, zero, suc, ◌+◌, ◌-◌, ◌<◌, ◌≤◌, ◌≡◌, refl, true, false, Option, some, List, ◌++◌, ltb, ◌==◌,
  length, length-append, length-take, take, if_lem, arith,
}
use wethands.Prelude.Slices.{take-all}
use wethands.Utils.FileUtil.{AppendFile, write_once, write_loop, append}

-- `fwrite` takes no more than it is given.
abbrev pub IsFwrite : (ℕ → ℕ → ℕ) → Type 0
IsFwrite fwrite = (call n : ℕ) → fwrite call n ≤ n

-- A file counts its bytes.
abbrev pub IsCounted : AppendFile → Type 0
IsCounted f = f.written_bytes ≡ length f.content

-- The rounds were enough, and the result satisfies `P`.
pub data Finishes {ℓ} (P : AppendFile → Type ℓ) : Option AppendFile → Type ℓ where
  finishes : (f : AppendFile) → P f → Finishes P (some f)

module _ (fwrite : ℕ → ℕ → ℕ) (kernel : IsFwrite fwrite) (line : List ℕ) where
  -- A call adds as many bytes as it says.
  grown :
      (f : AppendFile) (remain : ℕ)
      → remain ≤ length line
      → length (f.content ++ take (fwrite f.calls remain) line)
        ≡ length f.content + fwrite f.calls remain
  grown f remain within = omega (
    arith,
    length-append f.content (take (fwrite f.calls remain) line),
    length-take (fwrite f.calls remain) line,
    kernel f.calls remain,
  )

  -- In the loop the count lags behind by what was taken of the line.
  write_loop-IsCounted :
      (rounds : ℕ) (f : AppendFile) (remain : ℕ)
      → remain < rounds
      → remain ≤ length line
      → length f.content ≡ f.written_bytes + (length line - remain)
      → Finishes IsCounted (write_loop fwrite rounds f line remain)
  unfolding write_loop write_once
  write_loop-IsCounted zero f remain enough within lag = absurd (omega arith)
  write_loop-IsCounted (suc rounds) f remain enough within lag =
      if_lem (Finishes IsCounted) (fwrite f.calls remain == 0) _ _
        (λ stuck. finishes _ (ground (arith, grown f remain within, lag, stuck)))
        (λ goes.
          if_lem (Finishes IsCounted) (ltb 0 (remain - fwrite f.calls remain)) _ _
            (λ some_left.
              write_loop-IsCounted rounds (write_once fwrite f line remain)
                (remain - fwrite f.calls remain)
                (ground (arith, goes, enough, kernel f.calls remain)) (omega arith)
                (omega (arith, grown f remain within, kernel f.calls remain)))
            (λ all_gone.
              finishes _ (ground (arith, grown f remain within, all_gone, kernel f.calls remain))))

  -- Whatever `fwrite` takes at each call, an append ends, and the file has counted exactly the bytes
  -- that it was given.
  pub append-IsCounted : (f : AppendFile) → IsCounted f → Finishes IsCounted (append fwrite f line)
  unfolding append
  append-IsCounted f counted =
      write_loop-IsCounted (length line + 1) f (length line) (omega arith) (omega arith)
        (omega (arith, counted))

-- After a short write the loop starts at the beginning of the line again: a first call that takes
-- `n` bytes and a second that takes the others leave the first `n` bytes of the line and then its
-- first bytes once more, instead of the line.
pub append-short_write :
    (fwrite : ℕ → ℕ → ℕ) (f : AppendFile) (line : List ℕ) (n : ℕ)
    → 0 < n
    → n < length line
    → fwrite f.calls (length line) ≡ n
    → fwrite (f.calls + 1) (length line - n) ≡ length line - n
    → Finishes
        (λ f'. f'.content ≡ (f.content ++ take n line) ++ take (length line - n) line)
        (append fwrite f line)
unfolding append write_loop write_once
append-short_write fwrite f line n pos short first second =
    let e : length line + 1 ≡ suc (suc (length line - 1)) = omega arith in
    let some_taken : (n == 0) ≡ false = ground (arith, pos) in
    let some_left : ltb 0 (length line - n) ≡ true = ground (arith, short) in
    let others_taken : (length line - n == 0) ≡ false = ground (arith, short) in
    let none_left : ltb 0 (length line - n - (length line - n)) ≡ false = ground arith in
    rw (e, write_loop, first, some_taken, some_left, second, others_taken, none_left)
      (finishes _ refl)

-- A stream that takes all it is given.
abbrev pub TakesAll : (ℕ → ℕ → ℕ) → Type 0
TakesAll fwrite = (call n : ℕ) → fwrite call n ≡ n

-- With such a stream a line is appended as it is.
pub append_whole :
    (fwrite : ℕ → ℕ → ℕ) (f : AppendFile) (line : List ℕ)
    → TakesAll fwrite
    → 0 < length line
    → append fwrite f line
      ≡ some (record f {
        content = f.content ++ line;
        written_bytes = f.written_bytes + length line;
        calls = f.calls + 1;
      })
unfolding append write_loop write_once
append_whole fwrite f line all pos =
    let e : length line + 1 ≡ suc (length line) = omega arith in
    let some_taken : (length line == 0) ≡ false = ground (arith, pos) in
    let none_left : ltb 0 (length line - length line) ≡ false = ground arith in
    rw
      (
        e,
        write_loop,
        all f.calls (length line),
        some_taken,
        none_left,
        take-all (length line) line (omega arith),
      )
      refl
