-- ===== src/Utils/CircularQueue/Slots.antt =====
-- Positions in the ring.
use native.Mathlib.Nat.{mod-eq_of_lt, mod-eq-sub-mod}
use wethands.Prelude.{
  ℕ, ◌+◌, ◌-◌, ◌%◌, ◌^◌, ◌<◌, ◌≡◌, ◌≢◌, ltb, ok, arith, if◌then◌else◌, add_size, lt→ltb, ◌==◌, ap,
  inl, inr, Bool-cases, ◌∙◌,
}
use wethands.Utils.CircularQueue.{next_index}

-- Where the `k`-th element of a ring of `c` places stands that begins at `h`.
abbrev pub slot : ℕ → ℕ → ℕ → ℕ
slot c h k = if ltb (h + k) c then h + k else h + k - c

pub slot-lt : (c h k : ℕ) → h < c → k < c → slot c h k < c
slot-lt c h k hh hk = ground arith

-- Different elements stand in different places.
pub slot-ne : (c h j k : ℕ) → h < c → j < k → k < c → slot c h k ≢ slot c h j
slot-ne c h j k hh hj hk e = ground arith

next-mod : (c h : ℕ) → h < c → (h + 1) % c ≡ (if h + 1 == c then 0 else h + 1)
next-mod c h hh = elim (Bool-cases (h + 1 == c)) [
  | inl last ↦ rw last (
      mod-eq-sub-mod {n = h + 1} {m = c} (ground arith)
      ∙ mod-eq_of_lt {n = h + 1 - c} {m = c} (ground arith)
      ∙ ground arith)
  | inr inner ↦ rw inner (mod-eq_of_lt {n = h + 1} {m = c} (ground arith))
]

-- The next index goes up by one and from the last place back to 0.
pub next_index_lem :
    (c h : ℕ) → h < c → c < 2 ^ 63 → next_index c h ≡ ok (if h + 1 == c then 0 else h + 1)
unfolding next_index
next_index_lem c h hh hc = rw (lt→ltb 0 c (omega arith), no_wrap) (ap ok (next-mod c h hh))
  where
    no_wrap : add_size h 1 ≡ h + 1
    no_wrap = omega arith
