-- ===== src/Net/HttpServer.antt =====
-- src/net/http/HttpServer.cc: a message of a connection is parsed, and a whole request is answered.
-- `onMessage` runs in the loop of the connection; the user's callback fills in the response.
pub mod Reply
pub mod Answer
mod Tests
use wethands.Prelude.{
  ℕ, Bool, true, false, not, ◌&&◌, ◌||◌, Option, none, some, List, [], ◌∷◌, ◌++◌, if◌then◌else◌,
  Result, ok, ◌>>=◌,
}
use wethands.Net.Buffer.{initial_size, new_buffer, crlf}
use wethands.Net.TcpConnection.{
  TcpConnection, WriteResult, send, send_buffer, shutdown, is_state, connected,
}
use wethands.Net.HttpRequest.{HttpRequest, Version, http_10, is_equal, get_header}
use wethands.Net.HttpContext.{
  HttpContext, ParseState, got_all, new_http_context, reset, RequestLine, parse_request,
}
use wethands.Net.HttpResponse.{
  HttpResponse, new_http_response, append_to_buffer, connection_name, close_value, keep_alive_value,
}

abbrev pub is_http_10 : Version → Bool
is_http_10 http_10 = true
is_http_10 _ = false

unfoldable pub is_got_all : ParseState → Bool
is_got_all got_all = true
is_got_all _ = false

-- "HTTP/1.1 400 Bad Request\r\n\r\n".
abbrev pub bad_request : List ℕ
bad_request =
    72 ∷ 84 ∷ 84 ∷ 80 ∷ 47 ∷ 49 ∷ 46 ∷ 49 ∷ 32 ∷ 52 ∷ 48 ∷ 48 ∷ 32 ∷ []
    ++ 66 ∷ 97 ∷ 100 ∷ 32 ∷ 82 ∷ 101 ∷ 113 ∷ 117 ∷ 101 ∷ 115 ∷ 116 ∷ []
    ++ crlf
    ++ crlf

-- Does the request ask for the connection to be closed?
unfoldable pub wants_close : HttpRequest → Bool
wants_close req =
    let header = get_header req connection_name in
    is_equal header close_value || is_http_10 req.version && not (is_equal header keep_alive_value)

-- `onConnection`: a connection that is up gets a fresh context.
unfoldable pub on_connection : TcpConnection → HttpContext → HttpContext
on_connection conn context = if is_state conn.state connected then new_http_context else context

module _ (write : List ℕ → WriteResult) (http_callback : HttpRequest → HttpResponse → HttpResponse)
    (match_request_line : List ℕ → Option RequestLine)
    (match_header : List ℕ → Option (List ℕ × List ℕ)) where
  unfoldable pub handle_request : TcpConnection → HttpRequest → Result TcpConnection
  handle_request conn req = do
    let response = http_callback req (new_http_response (wants_close req))
    empty ← new_buffer initial_size
    buf ← append_to_buffer response empty
    (sent, rest) ← send_buffer write true conn buf
    ok (if response.close_connection then shutdown true sent else sent)

  -- What `onMessage` does with the outcome of the parser.
  unfoldable pub answer : TcpConnection → Bool → HttpContext → Result (HttpContext × TcpConnection)
  answer conn good context = do
    told ←
        (if good
          then ok conn
          else (do refused ← send write true conn bad_request; ok (shutdown true refused)))
    if is_got_all context.state
        then (do handled ← handle_request told context.request; ok (reset context, handled))
        else ok (context, told)

  -- `none` would be a parser that does not end.
  unfoldable pub on_message :
      ℕ → TcpConnection → HttpContext → Result (Option (HttpContext × TcpConnection))
  on_message receive_time conn context = do
    parsed ← parse_request match_request_line match_header receive_time context conn.input_buffer
    elim parsed [
      | none ↦ ok none
      | some (good, context', rest) ↦ (do
        answered ← answer (record conn { input_buffer = rest }) good context'
        ok (some answered))
    ]
