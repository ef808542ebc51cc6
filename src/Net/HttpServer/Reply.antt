-- ===== src/Net/HttpServer/Reply.antt =====
-- What the HTTP server sends on a connection: the printer, the temporary buffer and `Send` together.
use mathlib.Core.Path.{subst}
use mathlib.Core.List.{append-nil}
use wethands.Prelude.{
  ℕ, ◌+◌, ◌≤◌, ◌≡◌, refl, sym, ap, ◌∙◌, Bool, true, false, Option, List, [], ◌++◌, if◌then◌else◌,
  ◌&&◌, length, length-replicate, ok, Returns, Returns-both, Unless, Unless-bind, Unless_of,
  add_size, ◌>>=◌, arith,
}
use wethands.Net.Buffer.{
  Buffer, initial_size, init_prepend_size, new_buffer, max_size, readable_bytes, writable_bytes,
  prependable_bytes,
}
use wethands.Net.Buffer.Place.{IsCrowded}
use wethands.Net.Buffer.Laws
use wethands.Net.Buffer.Laws.{contents, Emptied, new_buffer_lem, retrieve_all_as_string_lem}
use wethands.Net.TcpConnection.{
  TcpConnection, connected, disconnecting, WriteResult, send, send_buffer, shutdown,
  shutdown_in_loop,
}
use wethands.Net.TcpConnection.Stream.{stream, is_state_of, IsWrite, NotFatal, IsValid, Sends}
use wethands.Net.TcpConnection.Send.{send_in_loop_lem}
use wethands.Net.HttpRequest.{HttpRequest}
use wethands.Net.HttpContext.{HttpContext, RequestLine}
use wethands.Net.HttpResponse.{HttpResponse, new_http_response, append_to_buffer}
use wethands.Net.HttpResponse.Render.{render, IsAppended, append_to_buffer_lem}
use wethands.Net.HttpServer.{is_got_all, bad_request, wants_close, handle_request}

-- The bytes that a connection got more, and its state afterwards.
pub record Replied (conn : TcpConnection) (bytes : List ℕ) (closing : Bool) (conn' : TcpConnection)
    : Type 0 where
  pub valid : IsValid conn'
  pub streamed : stream conn' ≡ stream conn ++ bytes
  pub next_state : conn'.state ≡ (if closing then disconnecting else connected)
  pub same_input : conn'.input_buffer ≡ conn.input_buffer
  pub same_shut : conn'.write_shut ≡ conn.write_shut

new_buffer-length :
    (n : ℕ)
    → n + init_prepend_size ≤ max_size
    → Returns
        (new_buffer n)
        (λ b. (length b.buffer ≡ n + init_prepend_size) × (b.read_index ≡ init_prepend_size))
unfolding new_buffer readable_bytes writable_bytes prependable_bytes
new_buffer-length n h = ground (arith, length-replicate {A = ℕ} (add_size init_prepend_size n) 0)

-- `Shutdown` of a connected connection changes its state only.
shutdown-state :
    (c : TcpConnection) → c.state ≡ connected → shutdown true c ≡ record c { state = disconnecting }
unfolding shutdown shutdown_in_loop
shutdown-state c open_ = rw (shutdown, is_state_of c connected open_) refl

-- An empty buffer for a response.
abbrev IsFresh : Buffer → Type 0
IsFresh b =
    (Laws.IsValid b × (contents b ≡ []) × (writable_bytes b ≡ initial_size))
    × ((length b.buffer ≡ initial_size + init_prepend_size) × (b.read_index ≡ init_prepend_size))

module _ (http_callback : HttpRequest → HttpResponse → HttpResponse) where
  -- The response that the user's callback makes of a request.
  unfoldable pub response_to : HttpRequest → HttpResponse
  response_to req = http_callback req (new_http_response (wants_close req))

  -- The bytes that answer a message, by what the parser said and the context that it left.
  unfoldable pub reply : Bool → HttpContext → List ℕ
  reply false c = bad_request
  reply true c = if is_got_all c.state then render (response_to c.request) else []

  unfoldable pub closes : Bool → HttpContext → Bool
  closes false c = true
  closes true c = is_got_all c.state && (response_to c.request).close_connection

-- With nothing to send, an open connection is as it was.
pub nothing-Replied :
    (conn : TcpConnection) → IsValid conn → conn.state ≡ connected → Replied conn [] false conn
nothing-Replied conn v open_ = record {
  valid = v;
  streamed = sym (append-nil (stream conn));
  next_state = open_;
  same_input = refl;
  same_shut = refl;
}

module _ (write : List ℕ → WriteResult) (kernel : IsWrite write) (calm : NotFatal write) where
  send-Sends :
      (c : TcpConnection) (bytes : List ℕ)
      → IsValid c
      → c.state ≡ connected
      → length c.output_buffer.buffer + length bytes ≤ max_size
      → Unless (IsCrowded c.output_buffer) (send write true c bytes) (Sends c bytes)
  unfolding send
  send-Sends c bytes v open_ small =
      rw (send, is_state_of c connected open_)
        (send_in_loop_lem c bytes v small write kernel calm open_)

  -- A shutdown that follows what was sent.
  Sends-Replied :
      (c : TcpConnection) (bytes : List ℕ) (closing : Bool) (c' : TcpConnection)
      → c.state ≡ connected
      → Sends c bytes c'
      → Replied c bytes closing (if closing then shutdown true c' else c')
  Sends-Replied c bytes false c' open_ s = record {
    valid = s.valid;
    streamed = s.streamed;
    next_state = s.same_state ∙ open_;
    same_input = s.same_input;
    same_shut = s.same_shut;
  }
  Sends-Replied c bytes true c' open_ s = rw (shutdown-state c' (s.same_state ∙ open_)) (record {
    valid = record {
      input = s.valid.input;
      output = s.valid.output;
      channel = s.valid.channel;
      armed = λ e h. cc;
    };
    streamed = s.streamed;
    next_state = refl;
    same_input = s.same_input;
    same_shut = s.same_shut;
  })

  send_buffer-Sends :
      (c : TcpConnection) (buf : Buffer)
      → IsValid c
      → c.state ≡ connected
      → Laws.IsValid buf
      → length c.output_buffer.buffer + length (contents buf) ≤ max_size
      → Unless
          (IsCrowded c.output_buffer)
          (send_buffer write true c buf)
          (λ sent. Sends c (contents buf) sent.0)
  unfolding send_buffer
  send_buffer-Sends c buf v open_ v_buf small =
      Unless-bind (IsCrowded c.output_buffer) (Emptied buf) _ _ _
        (Unless_of (IsCrowded c.output_buffer) (Emptied buf) _
          (retrieve_all_as_string_lem buf v_buf))
        (λ (bytes, rest) (taken, _, _).
          Unless-bind (IsCrowded c.output_buffer) (Sends c (contents buf)) _
            (send write true c bytes) _ (rw taken (send-Sends c (contents buf) v open_ small))
            (λ c' sends. sends))

  -- A refusal: "400 Bad Request", and the connection begins to close.
  pub refused-Replied :
      (conn : TcpConnection)
      → IsValid conn
      → conn.state ≡ connected
      → length conn.output_buffer.buffer + 28 ≤ max_size
      → Unless
          (IsCrowded conn.output_buffer)
          (send write true conn bad_request >>= λ sent. ok (shutdown true sent))
          (Replied conn bad_request true)
  refused-Replied conn v open_ small =
      Unless-bind (IsCrowded conn.output_buffer) (Sends conn bad_request) _
        (send write true conn bad_request) _ (send-Sends conn bad_request v open_ small)
        (λ c' sends. Sends-Replied conn bad_request true c' open_ sends)

  module _ (http_callback : HttpRequest → HttpResponse → HttpResponse)
      (match_request_line : List ℕ → Option RequestLine)
      (match_header : List ℕ → Option (List ℕ × List ℕ)) where
    -- A whole request gets the bytes of the response, and the connection closes if that asks for it.
    pub handle_request-Replied :
        (conn : TcpConnection) (req : HttpRequest)
        → IsValid conn
        → conn.state ≡ connected
        → length conn.output_buffer.buffer + 1032 + length (render (response_to http_callback req))
          ≤ max_size
        → Unless
            (IsCrowded conn.output_buffer)
            (handle_request write http_callback match_request_line match_header conn req)
            (Replied conn
              (render (response_to http_callback req))
              (response_to http_callback req).close_connection)
    unfolding handle_request response_to
    handle_request-Replied conn req v open_ small =
        let response = response_to http_callback req in
        Unless-bind (IsCrowded conn.output_buffer) IsFresh _ (new_buffer initial_size) _
          (Unless_of (IsCrowded conn.output_buffer) IsFresh (new_buffer initial_size) (
            Returns-both _ _ (new_buffer initial_size) (new_buffer_lem initial_size (omega arith))
              (new_buffer-length initial_size (omega arith))))
          (λ empty ((v_empty, no_bytes, _), (size, front)).
            Unless-bind (IsCrowded conn.output_buffer) (IsAppended empty (render response)) _
              (append_to_buffer response empty) _
              (Unless_of (IsCrowded conn.output_buffer) (IsAppended empty (render response)) _
                (append_to_buffer_lem response empty v_empty front (omega arith)))
              (λ buf ((v_buf, holds, _), _).
                let same : contents buf ≡ render response =
                  holds ∙ ap (λ l. l ++ render response) no_bytes in
                Unless-bind (IsCrowded conn.output_buffer)
                  (λ sent. Sends conn (contents buf) sent.0) _ _ _
                  (send_buffer-Sends conn buf v open_ v_buf (omega (arith, ap length same)))
                  (λ (c', rest) sends.
                    Sends-Replied conn (render response) response.close_connection c' open_
                      (subst (λ l. Sends conn l c') same sends))))
