-- ===== src/Net/HttpServer/Answer.antt =====
-- What a message on a connection of the HTTP server leads to: the parser, the user's callback, the
-- printer and the connection together.
use wethands.Prelude.{
  ℕ, ◌≡◌, Bool, Option, none, some, List, if◌then◌else◌, ok, Never, Result, ◌>>=◌,
}
use wethands.Net.Buffer.{Buffer}
use wethands.Net.Buffer.Laws
use wethands.Net.Buffer.Laws.{contents, Emptied, new_buffer_lem, retrieve_all_as_string_lem}
use wethands.Net.TcpConnection.{TcpConnection}
use wethands.Net.HttpRequest.{HttpRequest}
use wethands.Net.HttpContext.{HttpContext, new_http_context, RequestLine}
use wethands.Net.HttpContext.Parse.{IsReady, Parsed}
use wethands.Net.HttpResponse.{HttpResponse}
use wethands.Net.HttpServer.{is_got_all}
use wethands.Net.HttpServer.Reply.{Replied, reply, closes}

-- What `parse_request` returns.
abbrev pub ParseOutcome : Type 0
ParseOutcome = Result (Option (Bool × HttpContext × Buffer))

module _ (match_request_line : List ℕ → Option RequestLine)
    (match_header : List ℕ → Option (List ℕ × List ℕ)) (receive_time : ℕ)
    (http_callback : HttpRequest → HttpResponse → HttpResponse) (outcome : ParseOutcome) where
  -- A message is answered by what the parser returned of it, and the context is ready for the next
  -- one.
  pub record Answered (conn : TcpConnection) (context' : HttpContext) (conn' : TcpConnection)
      : Type 0 where
    pub result : Bool
    pub parsed : HttpContext
    pub rest : Buffer
    pub returned : outcome ≡ ok (some (result, parsed, rest))
    pub reads :
        Parsed match_request_line match_header receive_time conn.input_buffer result parsed rest
    pub replies :
        Replied
          (record conn { input_buffer = rest })
          (reply http_callback result parsed)
          (closes http_callback result parsed)
          conn'
    pub next_context : context' ≡ (if is_got_all parsed.state then new_http_context else parsed)
    pub ready : IsReady context'.state context'.request

  unfoldable pub IsAnswered : TcpConnection → Option (HttpContext × TcpConnection) → Type 0
  IsAnswered conn none = Never
  IsAnswered conn (some (context', conn')) = Answered conn context' conn'
