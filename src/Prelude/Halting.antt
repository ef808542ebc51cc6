-- ===== src/Prelude/Halting.antt =====
-- Runs that keep an invariant until a step at which something goes wrong that the code does not
-- prevent.
use mathlib.Core.Path.{◌≡◌, refl, ap}
use mathlib.Core.Logic.{◌⊎◌, inl, inr}
use mathlib.Core.List.{List, [], ◌∷◌, ◌++◌}
use wethands.Prelude.Faults.{Result, ok, ◌>>=◌, Returns, Returns-out}

-- The run has come to a hazard, and keeps the invariant up to there. `Good` is the invariant, with
-- the events that are still to come.
pub record Halted {S E : Type 0} (run : S → List E → Result S) (Good : List E → S → Type 0)
    (Hazard : S → E → Type 0) (start : Result S) (es : List E) : Type 0 where
  pub before : List E
  pub event : E
  pub after : List E
  pub splits : es ≡ before ++ event ∷ after
  pub reached : Returns (start >>= λ s. run s before) (λ s. Good (event ∷ after) s × Hazard s event)

module _ {S E : Type 0} (step : S → E → Result S) (run : S → List E → Result S)
    (Good : List E → S → Type 0) (Hazard : S → E → Type 0) (run_nil : (s : S) → run s [] ≡ ok s)
    (run_cons : (s : S) (e : E) (es : List E) → run s (e ∷ es) ≡ (step s e >>= λ s'. run s' es))
    (one : (e : E) (es : List E) (s : S)
      → Good (e ∷ es) s
      → Returns (step s e) (Good es) ⊎ Hazard s e) where
  -- A run keeps the invariant to its end, or comes to a hazard.
  pub run_or_halt :
      (es : List E) (s : S)
      → Good es s
      → Returns (run s es) (Good []) ⊎ Halted run Good Hazard (ok s) es
  run_or_halt [] s v = inl (rw (run_nil s) v)
  run_or_halt (e ∷ es) s v = elim (one e es s v) [
    | inr hazard ↦ inr (record {
      before = [];
      event = e;
      after = es;
      splits = refl;
      reached = rw (run_nil s) (v, hazard);
    })
    | inl returns ↦
        let (s', goes, v') = Returns-out (Good es) (step s e) returns in
        elim (run_or_halt es s' v') [
          | inl ends ↦ inl (rw (run_cons s e es, goes) ends)
          | inr halted ↦ inr (record {
            before = e ∷ halted.before;
            event = halted.event;
            after = halted.after;
            splits = ap (λ l. e ∷ l) halted.splits;
            reached = rw (run_cons s e halted.before, goes) halted.reached;
          })
        ]
  ]

  -- The same of a run after a start that succeeds.
  pub start_or_halt :
      (start : Result S) (es : List E)
      → Returns start (Good es)
      → Returns (start >>= λ s. run s es) (Good []) ⊎ Halted run Good Hazard start es
  start_or_halt start es begun =
      let (s, goes, v) = Returns-out (Good es) start begun in rw goes (run_or_halt es s v)
