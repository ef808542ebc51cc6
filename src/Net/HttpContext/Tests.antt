-- ===== src/Net/HttpContext/Tests.antt =====
-- Requests at concrete inputs.
use wethands.Prelude.{
  ℕ, refl, arith, Option, none, some, List, [], ◌∷◌, ◌++◌, replicate, Returns, if◌then◌else◌,
}
use wethands.Net.Buffer.{Buffer}
use wethands.Net.Buffer.Laws.{IsValid}
use wethands.Net.HttpRequest.{http_11_name, is_equal}
use wethands.Net.HttpContext.{new_http_context, RequestLine, parse_request}
use wethands.Net.HttpContext.Parse.{IsReady, Finished, parse_request_lem}

abbrev get_name : List ℕ
get_name = 71 ∷ 69 ∷ 84 ∷ []

-- A matcher that takes "GET" for a request line.
match_request_line : List ℕ → Option RequestLine
match_request_line line =
    if is_equal line get_name
    then some (record { method = get_name; path = []; query = []; version = http_11_name })
    else none

match_header : List ℕ → Option (List ℕ × List ℕ)
match_header text = none

-- "GET\r\n\r\nA".
abbrev text : Buffer
text = record {
  buffer = replicate 8 0 ++ 71 ∷ 69 ∷ 84 ∷ 13 ∷ 10 ∷ 13 ∷ 10 ∷ 65 ∷ [];
  read_index = 8;
  write_index = 16;
}

text-IsValid : IsValid text
text-IsValid = record {
  ordered = omega arith;
  within = omega arith;
  room = omega arith;
  small = omega arith;
}

parse_request_lem_example :
    Returns
      (parse_request match_request_line match_header 5 new_http_context text)
      (Finished match_request_line match_header 5 text)
parse_request_lem_example =
    parse_request_lem match_request_line match_header 5 new_http_context text text-IsValid
      (unfold IsReady in (refl, refl))
