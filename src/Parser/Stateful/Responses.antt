-- ===== src/Parser/Stateful/Responses.antt =====
-- `ihtp_parse_response_stateful` of src/ihtp_parser.c on a response that comes in pieces.
use iohttpparser.Base.{
  ℕ, ◌+◌, ◌≤◌, ◌≡◌, ◌≢◌, refl, ap, sym, ◌∙◌, arith, Option, some, ◌++◌, Bytes, length, drop, memchr,
  length-drop, drop-append_left, Option-cases, inl, inr,
}
use iohttpparser.Parser.StartLine.AppendStatus.{
  parse_status_line-append, parse_status_line-Done, parse_status_line-none,
}
use iohttpparser.Parser.StartLine.{StatusLine, parse_status_line}
use iohttpparser.Parser.Stateful.{
  HeaderArray, Parsed, returned, resolve_policy, store_response, headers_phase, response_headers,
  status_line_done, response_phase, parse_response_stateful,
}
use iohttpparser.Parser.Stateful.HeadersPhase.{SameResult, equal, headers_phase_resume}
use iohttpparser.Parser.Stateful.Joined.{Joined, in_headers, at_start, status_of_first}
use iohttpparser.Parser.Stateful.Totality.{response_phase-Returned}
use iohttpparser.Types.{
  Status, ok, incomplete, error, error_too_long, error_too_many_headers, ParserMode, mode_request,
  mode_response, mode_headers, ParserPhase, phase_start_line, phase_headers, phase_done,
  phase_error, ParserState, Response, Policy, max_headers_limit,
}

abbrev array_of : Response → HeaderArray
array_of resp = record { headers = resp.headers; num_headers = resp.num_headers }

module _ (policy : Policy) (xs ys : Bytes) where
  -- The call that follows `first`.
  abbrev next_call : Parsed Response → Option (Parsed Response)
  next_call first = response_phase first.state.phase first.state (xs ++ ys) first.out policy

  join :
      (mode : ParserMode) (cursor e : ℕ) (resp : Response) (first : Parsed Response)
      (array' : HeaderArray) (p q : Parsed Response)
      → first ≡ returned incomplete (in_headers mode (cursor + e)) (store_response resp array')
      → headers_phase
          (in_headers mode (cursor + e))
          (xs ++ ys)
          array'
          (store_response resp)
          max_headers_limit
          policy
        ≡ some p
      → headers_phase
          (in_headers mode cursor)
          (xs ++ ys)
          (array_of resp)
          (store_response resp)
          max_headers_limit
          policy
        ≡ some q
      → SameResult p q
      → Joined mode first
          (next_call first)
          (response_headers (in_headers mode cursor) (xs ++ ys) resp policy)
  unfolding response_headers response_phase
  join mode cursor e resp first array' p q first_is second_is whole_is same = rw first_is (record {
    p = p;
    q = q;
    second_is = second_is;
    whole_is = whole_is;
    same = same;
    kept = refl;
  })

  response_headers_resume :
      (mode : ParserMode) (cursor : ℕ) (resp : Response) (first : Parsed Response)
      → cursor ≤ length xs
      → response_headers (in_headers mode cursor) xs resp policy ≡ some first
      → first.status ≡ incomplete
      → Joined mode first
          (next_call first)
          (response_headers (in_headers mode cursor) (xs ++ ys) resp policy)
  unfolding response_headers
  response_headers_resume mode cursor resp first inside call early =
      let (array', e, first_is, p, q, second_is, whole_is, same) =
        headers_phase_resume (in_headers mode cursor) xs ys (array_of resp) (store_response resp)
          max_headers_limit policy first inside call early in
      join mode cursor e resp first array' p q first_is second_is whole_is same

  -- The same call on more bytes.
  same_call :
      (state : ParserState) (resp : Response) (first : Parsed Response)
      → first.state ≡ state
      → first.out ≡ resp
      → Joined state.mode first
          (next_call first)
          (response_phase state.phase state (xs ++ ys) resp policy)
  same_call state resp first state_is out_is =
      let (p, e) = response_phase-Returned policy state.phase state (xs ++ ys) resp in
      rw (state_is, out_is)
        (record { p = p; q = p; second_is = e; whole_is = e; same = equal refl; kept = refl })

  module _ (mode : ParserMode) (cursor : ℕ) (inside : cursor ≤ length xs) where
    abbrev start : ParserState
    start = at_start mode cursor

    status_line_done_resume :
        (status : Status) (r : StatusLine) (first : Parsed Response)
        → status ≢ incomplete
        → r.line_end ≤ length (drop cursor xs)
        → status_line_done status start xs r policy ≡ some first
        → first.status ≡ incomplete
        → Joined mode first (next_call first) (status_line_done status start (xs ++ ys) r policy)
    unfolding status_line_done
    status_line_done_resume ok r first final fits call early =
        response_headers_resume mode (cursor + r.line_end) r.resp first
          (omega (arith, length-drop cursor xs)) call early
    status_line_done_resume incomplete r first final fits call early = absurd (final refl)
    status_line_done_resume error r first final fits call early =
        absurd (final (status_of_first (returned error _ _) call early))
    status_line_done_resume error_too_long r first final fits call early =
        absurd (final (status_of_first (returned error_too_long _ _) call early))
    status_line_done_resume error_too_many_headers r first final fits call early =
        absurd (final (status_of_first (returned error_too_many_headers _ _) call early))

    abbrev line_of : Bytes → Response → StatusLine
    line_of buf resp = parse_status_line cursor (drop cursor buf) resp policy

    line_of_append :
        (resp : Response) {lf : ℕ}
        → memchr b'\n' (drop cursor xs) ≡ some lf
        → line_of (xs ++ ys) resp ≡ line_of xs resp
    line_of_append resp found =
        ap (λ text. parse_status_line cursor text resp policy)
          (drop-append_left xs ys cursor inside)
        ∙ parse_status_line-append cursor resp policy (drop cursor xs) found ys

    start_line_resume :
        (resp : Response) (first : Parsed Response)
        → response_phase phase_start_line start xs resp policy ≡ some first
        → first.status ≡ incomplete
        → Joined mode first
            (next_call first)
            (response_phase phase_start_line start (xs ++ ys) resp policy)
    unfolding response_phase status_line_done
    start_line_resume resp first call early = elim (Option-cases (memchr b'\n' (drop cursor xs))) [
      | inr (lf, found) ↦
          let done = parse_status_line-Done cursor resp policy (drop cursor xs) found in
          rw (line_of_append resp found) (
            status_line_done_resume (line_of xs resp).status (line_of xs resp) first done.final
              done.inside call early)
      | inl missing ↦
          let nothing = parse_status_line-none cursor resp policy (drop cursor xs) missing in
          let out = sym (ap (λ r. status_line_done r.status start xs r policy) nothing) ∙ call in
          let first_is : returned incomplete start resp ≡ first = cc in
          same_call start resp first (sym (ap (λ (p : Parsed Response). p.state) first_is))
            (sym (ap (λ (p : Parsed Response). p.out) first_is))
    ]

  response_phase_resume :
      (phase : ParserPhase) (mode : ParserMode) (cursor : ℕ) (resp : Response)
      (first : Parsed Response)
      → let state : ParserState = record { mode = mode; phase = phase; cursor = cursor } in
        cursor ≤ length xs
        → response_phase phase state xs resp policy ≡ some first
        → first.status ≡ incomplete
        → Joined mode first (next_call first) (response_phase phase state (xs ++ ys) resp policy)
  unfolding response_phase
  response_phase_resume phase_error mode cursor resp first inside call early =
      let wrong = status_of_first _ call early in absurd (cc)
  response_phase_resume phase_done mode cursor resp first inside call early =
      let wrong = status_of_first _ call early in absurd (cc)
  response_phase_resume phase_headers mode cursor resp first inside call early =
      response_headers_resume mode cursor resp first inside call early
  response_phase_resume phase_start_line mode cursor resp first inside call early =
      start_line_resume mode cursor inside resp first call early

-- A response that comes in two pieces: where the first call returns `INCOMPLETE`, the next call on
-- the longer buffer, with the state and the response that it left, and one call on the longer
-- buffer both return. The results are equal (the status, the state, the response with its headers,
-- the bytes consumed), or both calls fail with the same status, in the error phase. The cursor
-- lies in the first piece.
pub parse_response_stateful_resume :
    (state : ParserState) (xs ys : Bytes) (resp : Response) (policy : Option Policy)
    (consumed consumed' consumed'' : ℕ) (first : Parsed Response)
    → state.cursor ≤ length xs
    → parse_response_stateful state xs resp policy consumed ≡ some first
    → first.status ≡ incomplete
    → (second whole : Parsed Response) × (parse_response_stateful first.state
          (xs ++ ys)
          first.out
          policy
          consumed'
        ≡ some second)
      × (parse_response_stateful state (xs ++ ys) resp policy consumed'' ≡ some whole)
      × SameResult second whole
unfolding parse_response_stateful
parse_response_stateful_resume state xs ys resp policy k k' k'' first inside call early =
    by_mode state.mode state.phase state.cursor inside call
  where
    by_mode :
        (mode : ParserMode) (phase : ParserPhase) (cursor : ℕ)
        → let state' : ParserState = record { mode = mode; phase = phase; cursor = cursor } in
          cursor ≤ length xs
          → parse_response_stateful state' xs resp policy k ≡ some first
          → (second whole : Parsed Response) × (parse_response_stateful first.state
                (xs ++ ys)
                first.out
                policy
                k'
              ≡ some second)
            × (parse_response_stateful state' (xs ++ ys) resp policy k'' ≡ some whole)
            × SameResult second whole
    by_mode mode_response phase cursor inside call =
        let j =
          response_phase_resume (resolve_policy policy) xs ys phase mode_response cursor resp first
            inside call early in
        (j.p, j.q, rw (parse_response_stateful, j.kept) j.second_is, j.whole_is, j.same)
    by_mode mode_request phase cursor inside call =
        let wrong = status_of_first _ call early in absurd (cc)
    by_mode mode_headers phase cursor inside call =
        let wrong = status_of_first _ call early in absurd (cc)
