-- ===== src/Net/HttpResponse.antt =====
-- src/net/http/HttpResponse.h and HttpResponse.cc: a response and how it is written to a buffer.
pub mod Render
mod Tests
use wethands.Prelude.{
  ℕ, Bool, true, false, List, [], ◌∷◌, ◌++◌, if◌then◌else◌, length, take, Result, ok, ◌>>=◌,
}
use wethands.Prelude.Decimal.{decimal}
use wethands.Net.Buffer.{Buffer, append, crlf}
use wethands.Net.HttpRequest.{Headers, set_header}

pub record HttpResponse : Type 0 where
  pub status_code : ℕ
  pub status_message : List ℕ
  pub close_connection : Bool
  pub headers : Headers
  pub body : List ℕ

-- `kUnknown` is 0.
unfoldable pub new_http_response : Bool → HttpResponse
new_http_response close = record {
  status_code = 0;
  status_message = [];
  close_connection = close;
  headers = [];
  body = [];
}

unfoldable pub add_header : HttpResponse → List ℕ → List ℕ → HttpResponse
add_header r key value = record r { headers = set_header r.headers key value }

-- What `snprintf` leaves in the 32 bytes of `buf`, up to the terminating zero.
abbrev pub in_buf : List ℕ → List ℕ
in_buf text = take 31 text

-- "HTTP/1.1 %d ".
unfoldable pub status_line : HttpResponse → List ℕ
status_line r =
    in_buf (72 ∷ 84 ∷ 84 ∷ 80 ∷ 47 ∷ 49 ∷ 46 ∷ 49 ∷ 32 ∷ [] ++ decimal r.status_code ++ 32 ∷ [])

-- "Content-Length: %zd\r\n".
unfoldable pub length_line : HttpResponse → List ℕ
length_line r = in_buf (
    67 ∷ 111 ∷ 110 ∷ 116 ∷ 101 ∷ 110 ∷ 116 ∷ 45 ∷ 76 ∷ 101 ∷ 110 ∷ 103 ∷ 116 ∷ 104 ∷ 58 ∷ 32 ∷ []
    ++ decimal (length r.body)
    ++ crlf)

-- "Connection".
abbrev pub connection_name : List ℕ
connection_name = 67 ∷ 111 ∷ 110 ∷ 110 ∷ 101 ∷ 99 ∷ 116 ∷ 105 ∷ 111 ∷ 110 ∷ []

-- "close".
abbrev pub close_value : List ℕ
close_value = 99 ∷ 108 ∷ 111 ∷ 115 ∷ 101 ∷ []

-- "Keep-Alive".
abbrev pub keep_alive_value : List ℕ
keep_alive_value = 75 ∷ 101 ∷ 101 ∷ 112 ∷ 45 ∷ 65 ∷ 108 ∷ 105 ∷ 118 ∷ 101 ∷ []

-- ": ".
abbrev pub colon : List ℕ
colon = 58 ∷ 32 ∷ []

abbrev pub close_line : List ℕ
close_line = connection_name ++ colon ++ close_value ++ crlf

abbrev pub keep_alive_line : List ℕ
keep_alive_line = connection_name ++ colon ++ keep_alive_value ++ crlf

-- The loop over the headers.
unfoldable pub append_headers : Headers → Buffer → Result Buffer
append_headers [] output = ok output
append_headers ((key, value) ∷ headers) output = do
  b₁ ← append output key
  b₂ ← append b₁ colon
  b₃ ← append b₂ value
  b₄ ← append b₃ crlf
  append_headers headers b₄

-- The lines about the connection.
unfoldable pub append_connection : HttpResponse → Buffer → Result Buffer
append_connection r output =
    if r.close_connection
    then append output close_line
    else append output (length_line r) >>= λ b. append b keep_alive_line

unfoldable pub append_to_buffer : HttpResponse → Buffer → Result Buffer
append_to_buffer r output = do
  b₁ ← append output (status_line r)
  b₂ ← append b₁ r.status_message
  b₃ ← append b₂ crlf
  b₄ ← append_connection r b₃
  b₅ ← append_headers r.headers b₄
  b₆ ← append b₅ crlf
  append b₆ r.body
