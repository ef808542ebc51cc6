-- ===== src/Net/InetAddress/Text.antt =====
-- An address that is made from a text prints as that text.
use wethands.Prelude.{ℕ, ◌-◌, ◌≤◌, ◌<◌, ◌≡◌, refl, ap, true, false, List, ◌∷◌, ◌++◌, length, arith}
use wethands.Prelude.Slices.{take-all}
use wethands.Prelude.Decimal.{decimal, length-decimal}
use wethands.Net.InetAddress.{
  htobe16, be16toh, PtonResult, parsed, malformed, inet_address, append_port, to_string,
}

be16toh-htobe16 : (port : ℕ) → port < 65536 → be16toh (htobe16 port) ≡ port
unfolding be16toh htobe16
be16toh-htobe16 port h = omega arith

-- An address that is made of a dotted text and a port prints as that text, a colon and the decimal
-- port, when the text is the one that inet_ntop(3) gives for the address that inet_pton(3) reads
-- from it, and no longer than an IPv4 address can be.
pub to_string-inet_address :
    (inet_pton : List ℕ → PtonResult) (inet_ntop : ℕ → List ℕ) (ip : List ℕ) (a port : ℕ)
    → inet_pton ip ≡ parsed a
    → inet_ntop a ≡ ip
    → length ip ≤ 15
    → port < 65536
    → to_string inet_ntop true (inet_address inet_pton ip port).0 ≡ ip ++ 58 ∷ decimal port
unfolding to_string inet_address append_port
to_string-inet_address inet_pton inet_ntop ip a port reads writes short small =
    rw (inet_address, reads, writes, be16toh-htobe16 port small)
      (ap (λ l. ip ++ l)
        (take-all (32 - length ip - 1) (58 ∷ decimal port)
          (omega (arith, length-decimal 5 port (omega arith) (omega arith)))))

-- A text that is no address gives the address 0.0.0.0, and no error is logged.
pub inet_address-malformed :
    (inet_pton : List ℕ → PtonResult) (ip : List ℕ) (port : ℕ)
    → inet_pton ip ≡ malformed
    → ((inet_address inet_pton ip port).0.s_addr ≡ 0) × ((inet_address inet_pton ip port).1 ≡ false)
unfolding inet_address
inet_address-malformed inet_pton ip port h = rw (inet_address, h) (refl, refl)
