-- ===== src/Logger/LogFile/Tests.antt =====
-- A log of two lines with a new file between them.
use wethands.Prelude.{ℕ, ◌+◌, ◌*◌, ◌/◌, ◌≡◌, refl, [], ◌∷◌, Returns, ◌>>=◌, arith}
use wethands.Utils.FileUtil.Append.{TakesAll}
use wethands.Logger.LogFile.{new_log_file, append_lines}
use wethands.Logger.LogFile.Stream.{IsClock, append_lines-keeps, written, concat}

-- Two seconds pass between two readings.
abbrev clock : ℕ → ℕ
clock n = 2000000 * (n + 1)

abbrev start_of_day : ℕ → ℕ
start_of_day time = time / 86400000000 * 86400000000

abbrev whole : ℕ → ℕ → ℕ
whole call n = n

clock-IsClock : IsClock clock
clock-IsClock = record { rises = λ n. omega arith; starts = omega arith }

whole-TakesAll : TakesAll whole
whole-TakesAll call n = refl

append_lines-keeps_example :
    Returns
      (new_log_file clock start_of_day 4 3 1024 >>= λ l.
        append_lines clock start_of_day whole l ((1 ∷ 2 ∷ 3 ∷ []) ∷ (4 ∷ 5 ∷ []) ∷ []))
      (λ l. written l ≡ concat ((1 ∷ 2 ∷ 3 ∷ []) ∷ (4 ∷ 5 ∷ []) ∷ []))
append_lines-keeps_example =
    append_lines-keeps clock start_of_day clock-IsClock whole whole-TakesAll 4 3 1024
      ((1 ∷ 2 ∷ 3 ∷ []) ∷ (4 ∷ 5 ∷ []) ∷ [])
