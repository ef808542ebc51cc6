-- ===== src/Net/HttpContext/Parse.antt =====
-- `ParseRequest` ends, and what it leaves.
use wethands.Prelude.{
  ℕ, zero, suc, ◌+◌, ◌-◌, ◌<◌, ◌≤◌, ◌≡◌, refl, ap, ◌∙◌, Bool, true, false, Option, none, some, List,
  ◌==◌, length, drop, length-drop, ok, Returns, Returns-bind, Returns-map, Returns-if, Returns-elim,
  Never, ◌>>=◌, ◌⊎◌, inl, inr, if◌then◌else◌, arith,
}
use wethands.Prelude.Slices.{drop-drop}
use wethands.Net.Buffer.{Buffer, find_crlf, retrieve_until, readable_bytes}
use wethands.Net.Buffer.Laws.{
  IsValid, contents, length-contents, readable_bytes-sub, peek-contents, Retrieved,
  retrieve_until_lem,
}
use wethands.Net.Buffer.Find.{LineEnd, find_crlf_lem}
use wethands.Net.HttpRequest.{
  add_header, HttpRequest, is_invalid, is_unknown, set_version, set_method,
}
use wethands.Net.HttpContext.{
  HttpContext, ParseState, expect_request_line, expect_headers, expect_body, got_all, RequestLine,
  Round, more, done, line, parse_request_line, request_line_round, header_round, body_round, round,
  parse_loop, parse_request,
}

-- A request that was not begun has neither a method nor a version.
abbrev pub IsUnread : HttpRequest → Type 0
IsUnread r = (is_invalid r.method ≡ true) × (is_unknown r.version ≡ true)

-- Between two messages the context is not at the end, and is unread at the beginning.
unfoldable pub IsReady : ParseState → HttpRequest → Type 0
IsReady expect_request_line r = IsUnread r
IsReady expect_headers r = Unit
IsReady expect_body r = Unit
IsReady got_all r = Never

-- Bytes were taken from the front.
abbrev pub Shortened : Buffer → Buffer → Type 0
Shortened b b' = (n : ℕ) × (contents b' ≡ drop n (contents b))

line_end : (b : Buffer) (o : Option ℕ) → IsValid b → find_crlf b ≡ o → LineEnd b o
line_end b o v e = rw⁻¹ e (find_crlf_lem b v)

abbrev pub IsFurther : Buffer → Buffer → Type 0
IsFurther b b' = IsValid b' × (readable_bytes b' + 2 ≤ readable_bytes b) × Shortened b b'

-- Going behind a line end takes at least its two bytes.
after_line :
    (b : Buffer) (p : ℕ)
    → IsValid b
    → find_crlf b ≡ some p
    → Returns (retrieve_until b (p + 2)) (IsFurther b)
after_line b p v e =
    let (low, high, _, _) = line_end b (some p) v e in
    Returns-map (Retrieved b (p + 2 - b.read_index)) (IsFurther b) _
      (retrieve_until_lem b (p + 2) v (omega arith) high)
      (λ b' (valid, left, _). (
        valid,
        omega (
          arith,
          length-contents b v,
          length-contents b' valid,
          ap (length {A = ℕ}) left,
          length-drop (p + 2 - b.read_index) (contents b),
          readable_bytes-sub v,
        ),
        (p + 2 - b.read_index, left),
      ))

stays : (b : Buffer) → Shortened b b
stays b = (0, refl)

module _ (match_request_line : List ℕ → Option RequestLine)
    (match_header : List ℕ → Option (List ℕ × List ℕ)) (receive_time : ℕ) where
  -- The line of a request is not there in whole, or it does not match.
  abbrev pub IsBadLine : Buffer → Type 0
  IsBadLine b =
      (find_crlf b ≡ none)
      ⊎ ((p : ℕ) × (find_crlf b ≡ some p) × (match_request_line (line b p) ≡ none))

  -- A line is there that is no header, and it is not the empty line that ends the headers.
  abbrev pub IsBadHeader : Buffer → Type 0
  IsBadHeader b =
      (p : ℕ) × (find_crlf b ≡ some p)
      × (match_header (line b p) ≡ none)
      × ((b.read_index == p) ≡ false)

  -- What parsing returns, by the state that it leaves.
  unfoldable pub Settled : ParseState → Bool → HttpRequest → Buffer → Type 0
  Settled expect_request_line result r b = (result ≡ false) × IsUnread r × IsBadLine b
  Settled expect_headers result r b = if result then find_crlf b ≡ none else IsBadHeader b
  Settled expect_body result r b = Never
  Settled got_all result r b = (result ≡ true) × (r.body ≡ contents b)

  pub record Parsed (b : Buffer) (result : Bool) (c : HttpContext) (b' : Buffer) : Type 0 where
    pub valid : IsValid b'
    pub shortened : Shortened b b'
    pub settled : Settled c.state result c.request b'

  unfoldable pub RoundOutcome : Buffer → Round → Type 0
  RoundOutcome b (more c b') =
      IsValid b'
      × (readable_bytes b' + 2 ≤ readable_bytes b)
      × Shortened b b'
      × IsReady c.state c.request
  RoundOutcome b (done result c b') = Parsed b result c b'

  unfoldable pub Finished : Buffer → Option (Bool × HttpContext × Buffer) → Type 0
  Finished b none = Never
  Finished b (some (result, c, b')) = Parsed b result c b'

  -- What was left of a shorter buffer is left of the buffer.
  carry :
      (b b' : Buffer) (o : Option (Bool × HttpContext × Buffer))
      → Shortened b b'
      → Finished b' o
      → Finished b o
  unfolding Finished
  carry b b' none short finished = finished
  carry b b' (some (result, c, b'')) (n, e) finished = record {
    valid = finished.valid;
    shortened =
        let (m, e') = finished.shortened in
        (n + m, e' ∙ ap (drop m) e ∙ drop-drop m n (contents b));
    settled = finished.settled;
  }

  -- An unread request takes its method and its version without a failed assertion.
  parse_request_line_lem :
      (r : HttpRequest) (text : List ℕ)
      → IsUnread r
      → Returns
          (parse_request_line match_request_line match_header receive_time r text)
          (λ o. o ≡ none → match_request_line text ≡ none)
  unfolding parse_request_line set_method set_version
  parse_request_line_lem r text (m, u) =
      Returns-elim (λ o. o ≡ none → match_request_line text ≡ none) (match_request_line text) _ _
        (λ e same. e) (λ found e. rw (m, u) (λ bad. absurd (cc bad)))

  request_line_round_lem :
      (c : HttpContext) (b : Buffer)
      → IsValid b
      → c.state ≡ expect_request_line
      → IsUnread c.request
      → Returns
          (request_line_round match_request_line match_header receive_time c b)
          (RoundOutcome b)
  unfolding request_line_round
  request_line_round_lem c b v s unread =
      Returns-elim (RoundOutcome b) (find_crlf b) _ _ (λ e. failed (inl e))
        (λ p e.
          Returns-bind (λ o. o ≡ none → match_request_line (line b p) ≡ none) (RoundOutcome b) _ _
            (parse_request_line_lem c.request (line b p) unread)
            (λ parsed bad.
              Returns-elim (RoundOutcome b) parsed _ _ (λ e'. failed (inr (p, e, bad e')))
                (λ r e'. begun p e r)))
    where
      failed : IsBadLine b → RoundOutcome b (done false c b)
      failed reason =
          unfold RoundOutcome in
          record {
            valid = v;
            shortened = stays b;
            settled = rw s (unfold Settled in (refl, unread, reason));
          }

      begun :
          (p : ℕ)
          → find_crlf b ≡ some p
          → (r : HttpRequest)
          → Returns
              (retrieve_until b (p + 2) >>= λ rest. ok (
                more
                  (record {
                    request = record r { receive_time = receive_time };
                    state = expect_headers;
                  })
                  rest))
              (RoundOutcome b)
      begun p e r =
          Returns-bind (IsFurther b) (RoundOutcome b) _ _ (after_line b p v e)
            (λ b' (valid, fewer, short).
              unfold RoundOutcome in (valid, fewer, short, (unfold IsReady in tt)))

  header_round_lem :
      (c : HttpContext) (b : Buffer)
      → IsValid b
      → c.state ≡ expect_headers
      → Returns (header_round match_request_line match_header receive_time c b) (RoundOutcome b)
  unfolding header_round
  header_round_lem c b v s =
      Returns-elim (RoundOutcome b) (find_crlf b) _ _ (λ e. stopped true e)
        (λ p e.
          Returns-elim (RoundOutcome b) (match_header (line b p)) _ _
            (λ e'.
              Returns-if (RoundOutcome b) (b.read_index == p) _ _
                (λ empty. go_on p e (record c { state = expect_body }) (unfold IsReady in tt))
                (λ wrong. stopped false (p, e, e', wrong)))
            (λ header e'.
              go_on p e (record c { request = add_header c.request header.0 header.1 })
                (rw s (unfold IsReady in tt))))
    where
      stopped :
          (result : Bool)
          → (if result then find_crlf b ≡ none else IsBadHeader b)
          → RoundOutcome b (done result c b)
      stopped result h =
          unfold RoundOutcome in
          record { valid = v; shortened = stays b; settled = rw s (unfold Settled in h) }

      go_on :
          (p : ℕ)
          → find_crlf b ≡ some p
          → (c' : HttpContext) → IsReady c'.state c'.request
          → Returns (retrieve_until b (p + 2) >>= λ rest. ok (more c' rest)) (RoundOutcome b)
      go_on p e c' ready =
          Returns-bind (IsFurther b) (RoundOutcome b) _ _ (after_line b p v e)
            (λ b' (valid, fewer, short). unfold RoundOutcome in (valid, fewer, short, ready))

  round_lem :
      (c : HttpContext) (s : ParseState) (b : Buffer)
      → IsValid b
      → c.state ≡ s
      → IsReady s c.request
      → Returns (round match_request_line match_header receive_time c s b) (RoundOutcome b)
  unfolding round IsReady
  round_lem c expect_request_line b v e ready = request_line_round_lem c b v e ready
  round_lem c expect_headers b v e ready = header_round_lem c b v e
  round_lem c expect_body b v e ready =
      unfold RoundOutcome body_round Settled in
      record { valid = v; shortened = stays b; settled = (refl, peek-contents b v) }
  round_lem c got_all b v e ready = elim ready [ ]

  -- The rest of the loop after one round.
  after_round :
      (b : Buffer) (rounds : ℕ)
      → readable_bytes b < suc rounds
      → ((c' : HttpContext) (b' : Buffer)
          → IsValid b'
          → IsReady c'.state c'.request
          → readable_bytes b' < rounds
          → Returns
              (parse_loop match_request_line match_header receive_time rounds c' b')
              (Finished b'))
      → (r : Round) → RoundOutcome b r
      → Returns
          (elim r [
            | more c' b' ↦ parse_loop match_request_line match_header receive_time rounds c' b'
            | done result c' b' ↦ ok (some (result, c', b'))
          ])
          (Finished b)
  unfolding RoundOutcome
  after_round b rounds enough rest (more c' b') (valid, fewer, short, ready) =
      Returns-map (Finished b') (Finished b) _ (rest c' b' valid ready (omega arith))
        (λ o finished. carry b b' o short finished)
  after_round b rounds enough rest (done result c' b') outcome = unfold Finished in outcome

  -- As many rounds as there are readable bytes, and one more, are enough.
  parse_loop_lem :
      (rounds : ℕ) (c : HttpContext) (b : Buffer)
      → IsValid b
      → IsReady c.state c.request
      → readable_bytes b < rounds
      → Returns (parse_loop match_request_line match_header receive_time rounds c b) (Finished b)
  unfolding parse_loop
  parse_loop_lem zero c b v ready enough = absurd (omega arith)
  parse_loop_lem (suc rounds) c b v ready enough =
      Returns-bind (RoundOutcome b) (Finished b) _ _ (round_lem c c.state b v refl ready)
        (λ r outcome.
          after_round b rounds enough
            (λ c' b' v' ready' enough'. parse_loop_lem rounds c' b' v' ready' enough') r outcome)

  -- Parsing a request ends within the rounds that it is given, faults in no way, and takes bytes
  -- from the front of the buffer only. It ends in one of four ways: nothing was begun and the request
  -- is unread, since its line is not there in whole or does not match, and the result is false; it
  -- waits for a header line that is not there in whole, and the result is true; it has come to a line
  -- that is no header and not empty, and the result is false; or it has the whole request, whose body
  -- is all that is left in the buffer, and the result is true.
  pub parse_request_lem :
      (c : HttpContext) (b : Buffer)
      → IsValid b
      → IsReady c.state c.request
      → Returns (parse_request match_request_line match_header receive_time c b) (Finished b)
  unfolding parse_request
  parse_request_lem c b v ready = parse_loop_lem (readable_bytes b + 1) c b v ready (omega arith)
