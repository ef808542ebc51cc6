-- ===== src/Utils/CircularQueue/Tests.antt =====
-- The ring at a concrete input: begun at place 1, grown to its capacity.
use wethands.Prelude.{ℕ, ◌≡◌, refl, [], ◌∷◌, ok, arith}
use wethands.Utils.CircularQueue.{CircularQueue, front}
use wethands.Utils.CircularQueue.Represents.{Represents}

abbrev ring : CircularQueue ℕ
ring = record { begin_index = 1; end_index = 0; size = 1; count = 2; vec = 7 ∷ 8 ∷ []; cap = 2 }

ring-Represents : Represents ring (8 ∷ [])
ring-Represents = record { ring = ground arith; sized = refl; elems = λ k h. ground arith }

oldest : front ring ≡ ok 8
unfolding front
oldest = refl
