-- ===== src/Net/HttpResponse/Render.antt =====
-- The bytes of a response.
use mathlib.Core.List.{append_assoc, append-nil}
use wethands.Prelude.{
  ℕ, ◌+◌, ◌≤◌, ◌≡◌, sym, ap, ◌∙◌, Bool, true, false, List, [], ◌∷◌, ◌++◌, if◌then◌else◌, length,
  length-append, Result, Returns, Returns-bind, Returns-map, ◌>>=◌, arith,
}
use wethands.Net.Buffer.{Buffer, append, crlf, max_size, init_prepend_size}
use wethands.Net.Buffer.Laws.{IsValid, contents}
use wethands.Net.Buffer.Append.{Appended, append-front}
use wethands.Net.HttpRequest.{Headers}
use wethands.Net.HttpResponse.{
  HttpResponse, status_line, length_line, close_line, keep_alive_line, colon, append_headers,
  append_connection, append_to_buffer,
}

unfoldable pub render_headers : Headers → List ℕ
render_headers [] = []
render_headers ((key, value) ∷ headers) =
    key ++ (colon ++ (value ++ (crlf ++ render_headers headers)))

unfoldable pub render_connection : HttpResponse → List ℕ
render_connection r = if r.close_connection then close_line else length_line r ++ keep_alive_line

-- The message: the status line, the lines about the connection, the headers, an empty line, the
-- body.
unfoldable pub render : HttpResponse → List ℕ
render r =
    status_line r
    ++ (r.status_message
        ++ (crlf ++ (render_connection r ++ (render_headers r.headers ++ (crlf ++ r.body)))))

abbrev pub IsAppended : Buffer → List ℕ → Buffer → Type 0
IsAppended b bytes c = Appended b bytes c × (c.read_index ≡ init_prepend_size)

-- An operation that appends these bytes to any buffer with room for them of which nothing was taken.
abbrev pub IsAppend : (Buffer → Result Buffer) → List ℕ → Type 0
IsAppend operation bytes =
    (b : Buffer)
    → IsValid b
    → b.read_index ≡ init_prepend_size
    → length b.buffer + length bytes ≤ max_size
    → Returns (operation b) (IsAppended b bytes)

append-IsAppend : (bytes : List ℕ) → IsAppend (λ b. append b bytes) bytes
append-IsAppend bytes b v front small = append-front b bytes v front small

-- One such operation after another.
then-IsAppend :
    (f g : Buffer → Result Buffer) (xs ys : List ℕ)
    → IsAppend f xs
    → IsAppend g ys
    → IsAppend (λ b. f b >>= g) (xs ++ ys)
then-IsAppend f g xs ys first second b v front small =
    Returns-bind (IsAppended b xs) (IsAppended b (xs ++ ys)) (f b) g
      (first b v front (omega (arith, length-append xs ys)))
      (λ c ((valid, added, grown), front').
        Returns-map (IsAppended c ys) (IsAppended b (xs ++ ys)) (g c)
          (second c valid front' (omega (arith, length-append xs ys)))
          (λ d ((valid', added', grown'), front''). (
            (
              valid',
              added' ∙ ap (λ l. l ++ ys) added ∙ append_assoc (contents b) xs ys,
              omega (arith, length-append xs ys),
            ),
            front'',
          )))

append_headers-IsAppend :
    (headers : Headers) → IsAppend (append_headers headers) (render_headers headers)
unfolding append_headers render_headers
append_headers-IsAppend [] =
    λ b v front small. ((v, sym (append-nil (contents b)), omega arith), front)
append_headers-IsAppend ((key, value) ∷ headers) =
    then-IsAppend (λ b. append b key) _ key _ (append-IsAppend key)
      (then-IsAppend (λ b. append b colon) _ colon _ (append-IsAppend colon)
        (then-IsAppend (λ b. append b value) _ value _ (append-IsAppend value)
          (then-IsAppend (λ b. append b crlf) _ crlf _ (append-IsAppend crlf)
            (append_headers-IsAppend headers))))

append_connection-IsAppend :
    (r : HttpResponse) → IsAppend (append_connection r) (render_connection r)
unfolding append_connection render_connection
append_connection-IsAppend r = choose r.close_connection
  where
    choose :
        (close : Bool)
        → IsAppend
            (λ b.
              if close
              then append b close_line
              else append b (length_line r) >>= λ c. append c keep_alive_line)
            (if close then close_line else length_line r ++ keep_alive_line)
    choose true = append-IsAppend close_line
    choose false =
        then-IsAppend (λ b. append b (length_line r)) (λ c. append c keep_alive_line)
          (length_line r) keep_alive_line (append-IsAppend (length_line r))
          (append-IsAppend keep_alive_line)

-- `append_to_buffer` appends exactly the bytes of the message to a buffer with room for them of which
-- nothing was taken, and faults in no way.
pub append_to_buffer_lem :
    (r : HttpResponse) (b : Buffer)
    → IsValid b
    → b.read_index ≡ init_prepend_size
    → length b.buffer + length (render r) ≤ max_size
    → Returns (append_to_buffer r b) (IsAppended b (render r))
unfolding append_to_buffer render
append_to_buffer_lem r =
    then-IsAppend (λ b. append b (status_line r)) _ (status_line r) _
      (append-IsAppend (status_line r))
      (then-IsAppend (λ b. append b r.status_message) _ r.status_message _
        (append-IsAppend r.status_message)
        (then-IsAppend (λ b. append b crlf) _ crlf _ (append-IsAppend crlf)
          (then-IsAppend (append_connection r) _ (render_connection r) _
            (append_connection-IsAppend r)
            (then-IsAppend (append_headers r.headers) _ (render_headers r.headers) _
              (append_headers-IsAppend r.headers)
              (then-IsAppend (λ b. append b crlf) _ crlf _ (append-IsAppend crlf)
                (append-IsAppend r.body))))))
