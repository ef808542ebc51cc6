-- ===== src/Net/InetAddress/Tests.antt =====
-- The address 10.0.0.1, with the C library's functions cut down to that one text.
use wethands.Prelude.{ℕ, ◌≡◌, refl, true, List, [], ◌∷◌, ◌++◌, if◌then◌else◌, arith}
use wethands.Prelude.Decimal.{decimal}
use wethands.Net.HttpRequest.{is_equal}
use wethands.Net.InetAddress.{PtonResult, parsed, malformed, inet_address, to_string}
use wethands.Net.InetAddress.Text.{to_string-inet_address}

abbrev ten_dot_one : List ℕ
ten_dot_one = 49 ∷ 48 ∷ 46 ∷ 48 ∷ 46 ∷ 48 ∷ 46 ∷ 49 ∷ []

inet_pton : List ℕ → PtonResult
unfolding is_equal
inet_pton text = if is_equal text ten_dot_one then parsed 0x0100000a else malformed

to_string-inet_address_example :
    to_string (λ a. ten_dot_one) true (inet_address inet_pton ten_dot_one 8080).0
    ≡ ten_dot_one ++ 58 ∷ decimal 8080
unfolding inet_pton
to_string-inet_address_example =
    to_string-inet_address inet_pton (λ a. ten_dot_one) ten_dot_one 0x0100000a 8080 refl refl
      (omega arith) (omega arith)
