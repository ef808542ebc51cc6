-- ===== src/Utils/FileUtil/Tests.antt =====
-- A file whose stream takes three bytes at the first call.
use wethands.Prelude.{ℕ, ◌-◌, ◌≡◌, refl, List, [], ◌∷◌, ◌++◌, ◌==◌, if◌then◌else◌, take, arith}
use Prim.Native.Nat.{min}
use wethands.Utils.FileUtil.{new_append_file, append}
use wethands.Utils.FileUtil.Append.{IsFwrite, Finishes, append-short_write}

fwrite : ℕ → ℕ → ℕ
fwrite call n = if call == 0 then min 3 n else n

fwrite-IsFwrite : IsFwrite fwrite
unfolding fwrite
fwrite-IsFwrite call n = ground arith

abbrev line : List ℕ
line = 1 ∷ 2 ∷ 3 ∷ 4 ∷ 5 ∷ []

append-short_write_example :
    Finishes
      (λ f. f.content ≡ (new_append_file.content ++ take 3 line) ++ take (5 - 3) line)
      (append fwrite new_append_file line)
append-short_write_example =
    append-short_write fwrite new_append_file line 3 (omega arith) (omega arith)
      (unfold fwrite new_append_file in refl) (unfold fwrite new_append_file in refl)
