-- ===== src/Net/HttpContext.antt =====
-- src/net/http/HttpContext.h and HttpContext.cc: a request is read line by line from the input
-- buffer. The two regular expressions are parameters: what `std::regex_match` finds in a line.
pub mod Parse
mod Tests
use wethands.Prelude.{
  ℕ, zero, suc, ◌+◌, ◌-◌, Bool, true, false, Option, none, some, List, [], ◌∷◌, ◌==◌, if◌then◌else◌,
  Result, ok, ◌>>=◌, ◌>>◌,
}
use wethands.Prelude.Slices.{slice}
use wethands.Net.Buffer.{Buffer, peek, find_crlf, retrieve_until, readable_bytes}
use wethands.Net.HttpRequest.{HttpRequest, new_http_request, set_version, set_method, add_header}

pub data ParseState : Type 0 where
  expect_request_line expect_headers expect_body got_all : ParseState

pub record HttpContext : Type 0 where
  pub request : HttpRequest
  pub state : ParseState

abbrev pub new_http_context : HttpContext
new_http_context = record { request = new_http_request; state = expect_request_line }

-- `Reset`.
unfoldable pub reset : HttpContext → HttpContext
reset c = new_http_context

-- The four groups of the regular expression of a request line.
pub record RequestLine : Type 0 where
  pub method : List ℕ
  pub path : List ℕ
  pub query : List ℕ
  pub version : List ℕ

-- One round of the loop: go on, or leave it with this result.
pub data Round : Type 0 where
  more : HttpContext → Buffer → Round
  done : Bool → HttpContext → Buffer → Round

-- The bytes from `Peek()` to a pointer.
abbrev pub line : Buffer → ℕ → List ℕ
line b end = slice b.read_index (end - b.read_index) b.buffer

module _ (match_request_line : List ℕ → Option RequestLine)
    (match_header : List ℕ → Option (List ℕ × List ℕ)) (receive_time : ℕ) where
  -- `none` is a line that does not match.
  unfoldable pub parse_request_line : HttpRequest → List ℕ → Result (Option HttpRequest)
  parse_request_line r text = elim (match_request_line text) [
    | none ↦ ok none
    | some m ↦ (do
      (known, with_method) ← set_method r m.method
      (unknown, with_version) ←
          set_version (record with_method { path = m.path; query = m.query }) m.version
      ok (some with_version))
  ]

  unfoldable pub request_line_round : HttpContext → Buffer → Result Round
  request_line_round c b = elim (find_crlf b) [
    | none ↦ ok (done false c b)
    | some crlf ↦ (do
      parsed ← parse_request_line c.request (line b crlf)
      elim parsed [
        | none ↦ ok (done false c b)
        | some r ↦ (do
          rest ← retrieve_until b (crlf + 2)
          ok (
              more
                (record {
                  request = record r { receive_time = receive_time };
                  state = expect_headers;
                })
                rest))
      ])
  ]

  unfoldable pub header_round : HttpContext → Buffer → Result Round
  header_round c b = elim (find_crlf b) [
    | none ↦ ok (done true c b)
    | some crlf ↦ elim (match_header (line b crlf)) [
      | some (key, value) ↦ (do
        rest ← retrieve_until b (crlf + 2)
        ok (more (record c { request = add_header c.request key value }) rest))
      | none ↦
          if b.read_index == crlf
          then (do
            rest ← retrieve_until b (crlf + 2)
            ok (more (record c { state = expect_body }) rest))
          else ok (done false c b)
    ]
  ]

  -- The body is all that is readable; it stays in the buffer.
  unfoldable pub body_round : HttpContext → Buffer → Round
  body_round c b =
      done true (record { request = record c.request { body = peek b }; state = got_all }) b

  -- With `got_all` no branch is taken, and the loop goes on as it is.
  unfoldable pub round : HttpContext → ParseState → Buffer → Result Round
  round c expect_request_line b = request_line_round c b
  round c expect_headers b = header_round c b
  round c expect_body b = ok (body_round c b)
  round c got_all b = ok (more c b)

  -- `none` when the rounds do not suffice.
  unfoldable pub parse_loop :
      ℕ → HttpContext → Buffer → Result (Option (Bool × HttpContext × Buffer))
  parse_loop zero c b = ok none
  parse_loop (suc rounds) c b = round c c.state b >>= λ r. elim r [
    | more c' b' ↦ parse_loop rounds c' b'
    | done result c' b' ↦ ok (some (result, c', b'))
  ]

  -- Every round but the last takes bytes from the buffer.
  unfoldable pub parse_request :
      HttpContext → Buffer → Result (Option (Bool × HttpContext × Buffer))
  parse_request c b = parse_loop (readable_bytes b + 1) c b
