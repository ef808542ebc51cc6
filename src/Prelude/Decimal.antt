-- ===== src/Prelude/Decimal.antt =====
-- The decimal digits of a number, as `snprintf` and `std::to_string` write them.
use mathlib.Core.Path.{◌≡◌, refl, ◌∙◌}
use mathlib.Core.Logic.{inl, inr}
use mathlib.Core.List.{List, [], ◌∷◌, ◌++◌}
use Prim.Native.Nat.{ℕ, zero, suc, ◌+◌, ◌-◌, ◌*◌, ◌/◌, ◌%◌, ◌^◌, ◌≤◌, ◌<◌}
use native.Mathlib.Nat.{pow-suc}
use native.Mathlib.Omega.{arith}
use wethands.Prelude.Tests.{ltb, if◌then◌else◌, ltb→lt, lt→ltb, Bool-cases}
use wethands.Prelude.Lists.{length, length-append}

-- `places` bounds how many there are.
unfoldable pub digits : ℕ → ℕ → List ℕ
digits zero n = []
digits (suc places) n =
    let front = digits places (n / 10) in
    if ltb n 10 then (48 + n) ∷ [] else front ++ (48 + n % 10) ∷ []

-- A `size_t` has at most 20.
abbrev pub decimal : ℕ → List ℕ
decimal n = digits 20 n

-- The number that digits are read as, behind what was read before.
unfoldable pub read_digits : ℕ → List ℕ → ℕ
read_digits before [] = before
read_digits before (d ∷ ds) = read_digits (before * 10 + (d - 48)) ds

read_digits-snoc :
    (before : ℕ) (ds : List ℕ) (d : ℕ)
    → read_digits before (ds ++ d ∷ []) ≡ read_digits before ds * 10 + (d - 48)
unfolding read_digits
read_digits-snoc before [] d = refl
read_digits-snoc before (e ∷ ds) d = read_digits-snoc (before * 10 + (e - 48)) ds d

read_digits-digits : (places n : ℕ) → n < 10 ^ places → read_digits 0 (digits places n) ≡ n
unfolding digits read_digits
read_digits-digits zero n h = omega arith
read_digits-digits (suc places) n h = elim (Bool-cases (ltb n 10)) [
  | inl short ↦ rw short (omega arith)
  | inr long ↦ rw long (
      read_digits-snoc 0 (digits places (n / 10)) (48 + n % 10)
      ∙ omega (arith, read_digits-digits places (n / 10) (omega (arith, pow-suc 10 places))))
]

-- What is written reads back.
pub read_digits-decimal : (n : ℕ) → n < 10 ^ 20 → read_digits 0 (decimal n) ≡ n
read_digits-decimal n h = read_digits-digits 20 n h

-- Every byte that is written is a digit.
abbrev pub AreDigits : List ℕ → Type 0
AreDigits [] = Unit
AreDigits (d ∷ ds) = (48 ≤ d) × (d ≤ 57) × AreDigits ds

AreDigits-append : (xs ys : List ℕ) → AreDigits xs → AreDigits ys → AreDigits (xs ++ ys)
AreDigits-append [] ys h k = k
AreDigits-append (x ∷ xs) ys h k = (h.0, h.1, AreDigits-append xs ys h.2 k)

digits-AreDigits : (places n : ℕ) → AreDigits (digits places n)
unfolding digits
digits-AreDigits zero n = tt
digits-AreDigits (suc places) n = elim (Bool-cases (ltb n 10)) [
  | inl short ↦ rw short (let small = ltb→lt n 10 short in (omega arith, omega arith, tt))
  | inr long ↦ rw long (
      AreDigits-append (digits places (n / 10)) _ (digits-AreDigits places (n / 10))
        (omega arith, omega arith, tt))
]

pub decimal-AreDigits : (n : ℕ) → AreDigits (decimal n)
decimal-AreDigits n = digits-AreDigits 20 n

length-digits : (places k n : ℕ) → 0 < k → n < 10 ^ k → length (digits places n) ≤ k
unfolding digits
length-digits zero k n h l = omega arith
length-digits (suc places) zero n h l = absurd (omega arith)
length-digits (suc places) (suc zero) n h l = rw (lt→ltb n 10 l) (omega arith)
length-digits (suc places) (suc (suc k)) n h l = elim (Bool-cases (ltb n 10)) [
  | inl short ↦ rw short (omega arith)
  | inr long ↦ rw long (
      omega (
        arith,
        length-append (digits places (n / 10)) ((48 + n % 10) ∷ []),
        length-digits places (suc k) (n / 10) (omega arith) (omega (arith, pow-suc 10 (suc k))),
      ))
]

-- A number below a power of ten has no more digits than the exponent.
pub length-decimal : (k n : ℕ) → 0 < k → n < 10 ^ k → length (decimal n) ≤ k
length-decimal k n h l = length-digits 20 k n h l
