-- ===== src/Net/Buffer/Find.antt =====
-- `find_crlf` finds the first line end of the readable bytes.
use wethands.Prelude.{
  ℕ, zero, suc, ◌+◌, ◌-◌, ◌≤◌, ◌<◌, ◌≡◌, refl, sym, ap, true, false, Option, none, some, List, [],
  ◌∷◌, ◌++◌, length, drop, arith, if◌then◌else◌, ◌==◌, Bool-cases, inl, inr, length-drop, ◌⊎◌,
  ==_iff,
}
use mathlib.Core.Path.{ap₂}
use wethands.Prelude.Slices.{slice}
use wethands.Net.Buffer.{Buffer, readable_bytes, starts_with, search_for, crlf, find_crlf}
use wethands.Net.Buffer.Laws.{IsValid, contents, readable_bytes-sub, length-contents}

-- No line end begins in the text before position `n`.
abbrev pub NoLineEnd : List ℕ → ℕ → Type 0
NoLineEnd text n = (k : ℕ) → k < n → starts_with crlf (drop k text) ≡ false

-- `search_for` stops at the first place where the pattern begins.
search_for_lem :
    (text : List ℕ)
    → let n = search_for crlf text in
      NoLineEnd text n
      × ((n ≡ length text) ⊎ ((starts_with crlf (drop n text) ≡ true) × (n < length text)))
unfolding search_for
search_for_lem [] = (λ k h. elim h [ ], inl refl)
search_for_lem (x ∷ xs) = elim (Bool-cases (starts_with crlf (x ∷ xs))) [
  | inl here ↦ rw (here, search_for) ((λ k h. elim h [ ]), inr (here, omega arith))
  | inr later ↦
      rw (later, search_for) (skip later (search_for_lem xs).0, further (search_for_lem xs).1)
]
  where
    skip :
        starts_with crlf (x ∷ xs) ≡ false
        → NoLineEnd xs (search_for crlf xs)
        → NoLineEnd (x ∷ xs) (suc (search_for crlf xs))
    skip later rest zero h = later
    skip later rest (suc k) h = rest k (omega arith)

    further :
        (search_for crlf xs ≡ length xs)
          ⊎ ((starts_with crlf (drop (search_for crlf xs) xs) ≡ true)
              × (search_for crlf xs < length xs))
        → (suc (search_for crlf xs) ≡ suc (length xs))
          ⊎ ((starts_with crlf (drop (search_for crlf xs) xs) ≡ true)
              × (suc (search_for crlf xs) < suc (length xs)))
    further (inl e) = inl (ap suc e)
    further (inr (at, lt)) = inr (at, omega arith)

-- A text that starts with a pattern is the pattern and a rest.
pub starts_with-append :
    (ps text : List ℕ) → starts_with ps text ≡ true → text ≡ ps ++ drop (length ps) text
unfolding starts_with
starts_with-append [] text h = refl
starts_with-append (p ∷ ps) [] h = cc
starts_with-append (p ∷ ps) (x ∷ xs) h =
    ap₂ ◌∷◌ (sym ((==_iff p x).0 (ground arith))) (starts_with-append ps xs (ground arith))

-- What the result says of the contents: no line end at all, or the first one.
abbrev pub LineEnd : Buffer → Option ℕ → Type 0
LineEnd b none = NoLineEnd (contents b) (length (contents b))
LineEnd b (some p) =
    (b.read_index ≤ p)
    × (p + 2 ≤ b.write_index)
    × (drop (p - b.read_index) (contents b) ≡ crlf ++ drop 2 (drop (p - b.read_index) (contents b)))
    × NoLineEnd (contents b) (p - b.read_index)

-- `find_crlf` returns the first line end of the readable bytes, or the null pointer if there is
-- none; the line end lies within the readable bytes.
pub find_crlf_lem : (b : Buffer) → IsValid b → LineEnd b (find_crlf b)
unfolding find_crlf
find_crlf_lem b v = rw (← contents_eq) (cases (search_for_lem (contents b)).1)
  where
    contents_eq : contents b ≡ slice b.read_index (readable_bytes b) b.buffer
    contents_eq =
        unfold contents in ap (λ k. slice b.read_index k b.buffer) (sym (readable_bytes-sub v))

    n : ℕ
    n = search_for crlf (contents b)

    cases :
        (n ≡ length (contents b))
          ⊎ ((starts_with crlf (drop n (contents b)) ≡ true) × (n < length (contents b)))
        → LineEnd b (if b.read_index + n == b.write_index then none else some (b.read_index + n))
    cases (inl e) =
        rw
          ((==_iff (b.read_index + n) b.write_index).1
            (omega (arith, length-contents b v, readable_bytes-sub v)))
          (rw (← e) (search_for_lem (contents b)).0)
    cases (inr (at, lt)) =
        rw (found, offset)
          (
            omega arith,
            omega (
              arith,
              ap (length {A = ℕ}) (starts_with-append crlf (drop n (contents b)) at),
              length-drop n (contents b),
              length-contents b v,
              readable_bytes-sub v,
            ),
            starts_with-append crlf (drop n (contents b)) at,
            (search_for_lem (contents b)).0,
          )
      where
        found : (b.read_index + n == b.write_index) ≡ false
        found = ground (arith, length-contents b v, readable_bytes-sub v)

        offset : b.read_index + n - b.read_index ≡ n
        offset = omega arith
