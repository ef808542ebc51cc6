-- ===== src/Net/TcpServer/Names.antt =====
-- The name of a connection has its number behind the last `#`, so that no two names are equal.
use wethands.Prelude.{
  ℕ, ◌<◌, ◌^◌, ◌≡◌, refl, ap, true, Option, none, some, List, [], ◌∷◌, ◌++◌, ◌==◌, if◌then◌else◌,
  arith,
}
use wethands.Prelude.Decimal.{
  decimal, read_digits, read_digits-decimal, AreDigits, decimal-AreDigits,
}
use wethands.Net.HttpRequest.{is_equal}
use wethands.Net.TcpServer.{connection_name}

-- What stands behind the last `#` of a text.
unfoldable pub behind_hash : List ℕ → Option (List ℕ)
behind_hash [] = none
behind_hash (x ∷ xs) = elim (behind_hash xs) [
  | some rest ↦ some rest
  | none ↦ if x == 35 then some xs else none
]

-- The number that a name is read as.
unfoldable pub number_of_name : List ℕ → Option ℕ
number_of_name name = elim (behind_hash name) [
  | none ↦ none
  | some rest ↦ some (read_digits 0 rest)
]

behind_hash-AreDigits : (ds : List ℕ) → AreDigits ds → behind_hash ds ≡ none
unfolding behind_hash
behind_hash-AreDigits [] h = refl
behind_hash-AreDigits (d ∷ ds) h = ground (arith, behind_hash-AreDigits ds h.2, h.0)

behind_hash-append : (xs ds : List ℕ) → AreDigits ds → behind_hash (xs ++ 35 ∷ ds) ≡ some ds
unfolding behind_hash
behind_hash-append [] ds h = ground (arith, behind_hash-AreDigits ds h)
behind_hash-append (x ∷ xs) ds h = ground (arith, behind_hash-append xs ds h)

-- The name of a connection reads back as its number, whatever the text of the peer's address is.
pub number_of_name-connection_name :
    (peer : List ℕ) (count : ℕ)
    → count < 10 ^ 20
    → number_of_name (connection_name peer count) ≡ some count
unfolding number_of_name connection_name
number_of_name-connection_name peer count small =
    rw (number_of_name, behind_hash-append peer (decimal count) (decimal-AreDigits count))
      (ap some (read_digits-decimal count small))

pub is_equal-eq : (xs ys : List ℕ) → is_equal xs ys ≡ true → xs ≡ ys
unfolding is_equal
is_equal-eq [] [] h = refl
is_equal-eq [] (y ∷ ys) h = cc
is_equal-eq (x ∷ xs) [] h = cc
is_equal-eq (x ∷ xs) (y ∷ ys) h = ground (arith, is_equal-eq xs ys)

pub is_equal_refl : (xs : List ℕ) → is_equal xs xs ≡ true
unfolding is_equal
is_equal_refl [] = refl
is_equal_refl (x ∷ xs) = ground (arith, is_equal_refl xs)
