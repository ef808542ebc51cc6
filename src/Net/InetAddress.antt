-- ===== src/Net/InetAddress.antt =====
-- src/net/InetAddress.h and InetAddress.cc: an IPv4 address and its text. `sin_port` and `s_addr`
-- are what lies in the memory of a little-endian machine, read as numbers. inet_pton(3),
-- inet_ntop(3) and getaddrinfo(3) are parameters.
pub mod Text
mod Tests
use wethands.Prelude.{
  ℕ, ◌+◌, ◌-◌, ◌*◌, ◌/◌, ◌%◌, Bool, true, false, Option, none, some, List, [], ◌∷◌, ◌++◌, ◌==◌,
  length, take, if◌then◌else◌, Result, ok, fault, null_pointer, assert, ◌>>=◌, ◌>>◌,
}
use wethands.Prelude.Decimal.{decimal}

abbrev pub af_inet : ℕ
af_inet = 2

abbrev pub sock_stream : ℕ
sock_stream = 1

abbrev pub ipproto_tcp : ℕ
ipproto_tcp = 6

-- `sizeof(struct sockaddr_in)`.
abbrev pub address_len : ℕ
address_len = 16

pub record InetAddress : Type 0 where
  pub sin_family : ℕ
  pub sin_port : ℕ
  pub s_addr : ℕ

-- `htobe16` and `be16toh` swap the two bytes.
unfoldable pub htobe16 : ℕ → ℕ
htobe16 port = port % 256 * 256 + port / 256

unfoldable pub be16toh : ℕ → ℕ
be16toh port = port % 256 * 256 + port / 256

unfoldable pub new_inet_address : InetAddress
new_inet_address = record { sin_family = 0; sin_port = 0; s_addr = 0 }

-- For a server that listens.
unfoldable pub any_address : ℕ → InetAddress
any_address port = record { sin_family = af_inet; sin_port = htobe16 port; s_addr = 0 }

-- The answer of inet_pton(3): 1 with the address, 0 for a text that is none, -1 for a family that
-- it does not know.
pub data PtonResult : Type 0 where
  parsed : ℕ → PtonResult
  malformed unknown_family : PtonResult

-- The address, and whether an error was logged.
unfoldable pub inet_address : (List ℕ → PtonResult) → List ℕ → ℕ → InetAddress × Bool
inet_address inet_pton ip port =
    let blank : InetAddress = record {
      sin_family = af_inet;
      sin_port = htobe16 port;
      s_addr = 0;
    } in
    elim (inet_pton ip) [
      | parsed a ↦ (record blank { s_addr = a }, false)
      | malformed ↦ (blank, false)
      | unknown_family ↦ (blank, true)
    ]

-- `snprintf(buf + n, sizeof(buf) - n, ":%u", port)` behind `n` bytes of text.
unfoldable pub append_port : List ℕ → ℕ → List ℕ
append_port text port = text ++ take (32 - length text - 1) (58 ∷ decimal port)

unfoldable pub to_string : (ℕ → List ℕ) → Bool → InetAddress → List ℕ
to_string inet_ntop print_port a =
    if print_port then append_port (inet_ntop a.s_addr) (be16toh a.sin_port) else inet_ntop a.s_addr

-- The first entry of the list that getaddrinfo(3) returns.
pub record AddrInfo : Type 0 where
  pub ai_addrlen : ℕ
  pub ai_family : ℕ
  pub ai_socktype : ℕ
  pub ai_protocol : ℕ
  pub ai_addr : InetAddress

-- `none` of `res` is an error of getaddrinfo(3). The result is what the function returns, and
-- `resultAddr` after it.
unfoldable pub name_to_address : Option AddrInfo → InetAddress → Result (Bool × InetAddress)
name_to_address res result_addr = elim res [
  | none ↦ ok (false, result_addr)
  | some info ↦ (do
    assert (info.ai_addrlen == address_len)
    assert (info.ai_family == af_inet)
    assert (info.ai_socktype == sock_stream)
    assert (info.ai_protocol == ipproto_tcp)
    ok (
      true,
      record {
        sin_family = af_inet;
        sin_port = info.ai_addr.sin_port;
        s_addr = info.ai_addr.s_addr;
      },
    ))
]
