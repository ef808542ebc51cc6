-- ===== src/Prelude/Writes.antt =====
-- Slices of a list after a block write into it.
use Prim.Native.Nat.{ℕ, ◌+◌, ◌-◌, ◌≤◌}
use mathlib.Core.Path.{◌≡◌, ap, sym, ◌∙◌}
use mathlib.Core.List.{List, ◌++◌}
use native.Mathlib.Omega.{arith}
use wethands.Prelude.Lists.{length, take, drop, length-take, length-drop, length-append}
use wethands.Prelude.Slices.{
  slice, overwrite, take-append_le, drop-append_le, drop-append_ge, take-append_exact, take-take,
  drop-drop, drop-take, take-add,
}

module _ {ℓ} {A : Type ℓ} where
  pub length-slice : (i n : ℕ) (xs : List A) → i + n ≤ length xs → length (slice i n xs) ≡ n
  length-slice i n xs h = omega (arith, length-take n (drop i xs), length-drop i xs)

  -- Two neighbouring slices make one.
  pub slice-add :
      (i m n : ℕ) (xs : List A) → slice i (m + n) xs ≡ slice i m xs ++ slice (i + m) n xs
  slice-add i m n xs =
      take-add m n (drop i xs) ∙ ap (λ l. take m (drop i xs) ++ take n l) (drop-drop m i xs)

  pub slice-append_le :
      (i n : ℕ) (xs ys : List A) → i + n ≤ length xs → slice i n (xs ++ ys) ≡ slice i n xs
  slice-append_le i n xs ys h =
      ap (take n) (drop-append_le i xs ys (omega arith))
      ∙ take-append_le n (drop i xs) ys (omega (arith, length-drop i xs))

  pub length-overwrite :
      (xs : List A) (i : ℕ) (ys : List A)
      → i + length ys ≤ length xs
      → length (overwrite xs i ys) ≡ length xs
  length-overwrite xs i ys h = omega (
    arith,
    length-append (take i xs) (ys ++ drop (i + length ys) xs),
    length-append ys (drop (i + length ys) xs),
    length-take i xs,
    length-drop (i + length ys) xs,
  )

  -- Before the block nothing changes.
  pub slice-overwrite_before :
      (xs : List A) (w : ℕ) (ys : List A) (i n : ℕ)
      → w ≤ length xs
      → i + n ≤ w
      → slice i n (overwrite xs w ys) ≡ slice i n xs
  slice-overwrite_before xs w ys i n hw h =
      slice-append_le i n (take w xs) _ (omega (arith, length-take w xs))
      ∙ ap (take n) (drop-take i w xs)
      ∙ take-take n (w - i) (drop i xs) (omega arith)

  drop-overwrite :
      (xs : List A) (w : ℕ) (ys : List A)
      → w ≤ length xs
      → drop w (overwrite xs w ys) ≡ ys ++ drop (w + length ys) xs
  drop-overwrite xs w ys hw =
      drop-append_ge w (take w xs) _ (omega (arith, length-take w xs))
      ∙ at_start (w - length (take w xs)) (omega (arith, length-take w xs))
    where
      at_start :
          (k : ℕ) → k ≡ 0 → drop k (ys ++ drop (w + length ys) xs) ≡ ys ++ drop (w + length ys) xs
      at_start k e = ap (λ j. drop j (ys ++ drop (w + length ys) xs)) e

  -- The block itself is what was written.
  pub slice-overwrite_at :
      (xs : List A) (w : ℕ) (ys : List A)
      → w ≤ length xs
      → slice w (length ys) (overwrite xs w ys) ≡ ys
  slice-overwrite_at xs w ys hw =
      ap (take (length ys)) (drop-overwrite xs w ys hw)
      ∙ take-append_exact ys (drop (w + length ys) xs)

  -- Behind the block nothing changes.
  pub slice-overwrite_after :
      (xs : List A) (w : ℕ) (ys : List A) (i n : ℕ)
      → w + length ys ≤ length xs
      → w + length ys ≤ i
      → slice i n (overwrite xs w ys) ≡ slice i n xs
  slice-overwrite_after xs w ys i n hw h = ap (take n) (
      ap (λ k. drop k (overwrite xs w ys)) (omega arith)
      ∙ sym (drop-drop (i - w) w (overwrite xs w ys))
      ∙ ap (drop (i - w)) (drop-overwrite xs w ys (omega arith))
      ∙ drop-append_ge (i - w) ys _ (omega arith)
      ∙ drop-drop (i - w - length ys) (w + length ys) xs
      ∙ ap (λ k. drop k xs) (omega arith))
