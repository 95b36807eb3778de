-- ===== src/Parser/Stateful/Incremental.antt =====
-- `ihtp_parse_request_stateful` of src/ihtp_parser.c on a request that comes in pieces.
use iohttpparser.Base.{
  ℕ, ◌+◌, ◌≤◌, ◌≡◌, ◌≢◌, refl, ap, sym, ◌∙◌, arith, Option, some, ◌++◌, Bytes, ltb, length, drop,
  memchr, length-drop, drop-append_left, Bool-cases, Option-cases, inl, inr,
}
use iohttpparser.Parser.StartLine.Append.{
  parse_request_line-append, parse_request_line-Done, parse_request_line-none,
}
use iohttpparser.Parser.StartLine.{RequestLine, failed_request, parse_request_line}
use iohttpparser.Parser.Stateful.{
  HeaderArray, Parsed, returned, resolve_policy, store_request, headers_phase, request_headers,
  request_line_done, request_phase, parse_request_stateful,
}
use iohttpparser.Parser.Stateful.HeadersPhase.{SameResult, equal, headers_phase_resume}
use iohttpparser.Parser.Stateful.Joined.{Joined, in_headers, at_start, status_of_first}
use iohttpparser.Parser.Stateful.Totality.{request_phase-Returned}
use iohttpparser.Types.{
  Status, ok, incomplete, error, error_too_long, error_too_many_headers, ParserMode, mode_request,
  mode_response, mode_headers, ParserPhase, phase_start_line, phase_headers, phase_done,
  phase_error, ParserState, Request, Policy, max_request_line, max_headers_limit,
}

abbrev array_of : Request → HeaderArray
array_of req = record { headers = req.headers; num_headers = req.num_headers }

module _ (policy : Policy) (xs ys : Bytes) where
  -- The call that follows `first`.
  abbrev next_call : Parsed Request → Option (Parsed Request)
  next_call first = request_phase first.state.phase first.state (xs ++ ys) first.out policy

  join :
      (mode : ParserMode) (cursor e : ℕ) (req : Request) (first : Parsed Request)
      (array' : HeaderArray) (p q : Parsed Request)
      → first ≡ returned incomplete (in_headers mode (cursor + e)) (store_request req array')
      → headers_phase
          (in_headers mode (cursor + e))
          (xs ++ ys)
          array'
          (store_request req)
          max_headers_limit
          policy
        ≡ some p
      → headers_phase
          (in_headers mode cursor)
          (xs ++ ys)
          (array_of req)
          (store_request req)
          max_headers_limit
          policy
        ≡ some q
      → SameResult p q
      → Joined mode first
          (next_call first)
          (request_headers (in_headers mode cursor) (xs ++ ys) req policy)
  unfolding request_headers request_phase
  join mode cursor e req first array' p q first_is second_is whole_is same = rw first_is (record {
    p = p;
    q = q;
    second_is = second_is;
    whole_is = whole_is;
    same = same;
    kept = refl;
  })

  request_headers_resume :
      (mode : ParserMode) (cursor : ℕ) (req : Request) (first : Parsed Request)
      → cursor ≤ length xs
      → request_headers (in_headers mode cursor) xs req policy ≡ some first
      → first.status ≡ incomplete
      → Joined mode first
          (next_call first)
          (request_headers (in_headers mode cursor) (xs ++ ys) req policy)
  unfolding request_headers
  request_headers_resume mode cursor req first inside call early =
      let (array', e, first_is, p, q, second_is, whole_is, same) =
        headers_phase_resume (in_headers mode cursor) xs ys (array_of req) (store_request req)
          max_headers_limit policy first inside call early in
      join mode cursor e req first array' p q first_is second_is whole_is same

  -- The same call on more bytes.
  same_call :
      (state : ParserState) (req : Request) (first : Parsed Request)
      → first.state ≡ state
      → first.out ≡ req
      → Joined state.mode first
          (next_call first)
          (request_phase state.phase state (xs ++ ys) req policy)
  same_call state req first state_is out_is =
      let (p, e) = request_phase-Returned policy state.phase state (xs ++ ys) req in
      rw (state_is, out_is)
        (record { p = p; q = p; second_is = e; whole_is = e; same = equal refl; kept = refl })

  module _ (mode : ParserMode) (cursor : ℕ) (inside : cursor ≤ length xs) where
    abbrev start : ParserState
    start = at_start mode cursor

    request_line_done_resume :
        (status : Status) (r : RequestLine) (first : Parsed Request)
        → status ≢ incomplete
        → r.line_end ≤ length (drop cursor xs)
        → request_line_done status start xs r policy ≡ some first
        → first.status ≡ incomplete
        → Joined mode first (next_call first) (request_line_done status start (xs ++ ys) r policy)
    unfolding request_line_done
    request_line_done_resume ok r first final fits call early =
        request_headers_resume mode (cursor + r.line_end) r.req first
          (omega (arith, length-drop cursor xs)) call early
    request_line_done_resume incomplete r first final fits call early = absurd (final refl)
    request_line_done_resume error r first final fits call early =
        absurd (final (status_of_first (returned error _ _) call early))
    request_line_done_resume error_too_long r first final fits call early =
        absurd (final (status_of_first (returned error_too_long _ _) call early))
    request_line_done_resume error_too_many_headers r first final fits call early =
        absurd (final (status_of_first (returned error_too_many_headers _ _) call early))

    abbrev line_of : Bytes → Request → RequestLine
    line_of buf req = parse_request_line cursor (drop cursor buf) req policy

    line_of_append :
        (req : Request) {lf : ℕ}
        → memchr b'\n' (drop cursor xs) ≡ some lf
        → line_of (xs ++ ys) req ≡ line_of xs req
    line_of_append req found =
        ap (λ text. parse_request_line cursor text req policy)
          (drop-append_left xs ys cursor inside)
        ∙ parse_request_line-append cursor req policy (drop cursor xs) found ys

    start_line_resume :
        (req : Request) (first : Parsed Request)
        → request_phase phase_start_line start xs req policy ≡ some first
        → first.status ≡ incomplete
        → Joined mode first
            (next_call first)
            (request_phase phase_start_line start (xs ++ ys) req policy)
    unfolding request_phase request_line_done
    start_line_resume req first call early = elim (Option-cases (memchr b'\n' (drop cursor xs))) [
      | inr (lf, found) ↦
          let done = parse_request_line-Done cursor req policy (drop cursor xs) found in
          rw (line_of_append req found) (
            request_line_done_resume (line_of xs req).status (line_of xs req) first done.final
              done.inside call early)
      | inl missing ↦
          let nothing = parse_request_line-none cursor req policy (drop cursor xs) missing in
          elim (Bool-cases (ltb max_request_line (length (drop cursor xs)))) [
            | inl long ↦
                let line : line_of xs req ≡ failed_request req error_too_long =
                  nothing ∙ rw long refl in
                let out =
                  sym (ap (λ r. request_line_done r.status start xs r policy) line) ∙ call in
                let wrong = status_of_first (returned error_too_long _ _) out early in absurd (cc)
            | inr short ↦
                let line : line_of xs req ≡ failed_request req incomplete =
                  nothing ∙ rw short refl in
                let out =
                  sym (ap (λ r. request_line_done r.status start xs r policy) line) ∙ call in
                let first_is : returned incomplete start req ≡ first = cc in
                same_call start req first (sym (ap (λ (p : Parsed Request). p.state) first_is))
                  (sym (ap (λ (p : Parsed Request). p.out) first_is))
          ]
    ]

  request_phase_resume :
      (phase : ParserPhase) (mode : ParserMode) (cursor : ℕ) (req : Request)
      (first : Parsed Request)
      → let state : ParserState = record { mode = mode; phase = phase; cursor = cursor } in
        cursor ≤ length xs
        → request_phase phase state xs req policy ≡ some first
        → first.status ≡ incomplete
        → Joined mode first (next_call first) (request_phase phase state (xs ++ ys) req policy)
  unfolding request_phase
  request_phase_resume phase_error mode cursor req first inside call early =
      let wrong = status_of_first _ call early in absurd (cc)
  request_phase_resume phase_done mode cursor req first inside call early =
      let wrong = status_of_first _ call early in absurd (cc)
  request_phase_resume phase_headers mode cursor req first inside call early =
      request_headers_resume mode cursor req first inside call early
  request_phase_resume phase_start_line mode cursor req first inside call early =
      start_line_resume mode cursor inside req first call early

-- A request that comes in two pieces: where the first call returns `INCOMPLETE`, the next call on
-- the longer buffer, with the state and the request that it left, and one call on the longer
-- buffer both return. The results are equal (the status, the state, the request with its headers,
-- the bytes consumed), or both calls fail with the same status, in the error phase. The cursor
-- lies in the first piece.
pub parse_request_stateful_resume :
    (state : ParserState) (xs ys : Bytes) (req : Request) (policy : Option Policy)
    (consumed consumed' consumed'' : ℕ) (first : Parsed Request)
    → state.cursor ≤ length xs
    → parse_request_stateful state xs req policy consumed ≡ some first
    → first.status ≡ incomplete
    → (second whole : Parsed Request) × (parse_request_stateful first.state
          (xs ++ ys)
          first.out
          policy
          consumed'
        ≡ some second)
      × (parse_request_stateful state (xs ++ ys) req policy consumed'' ≡ some whole)
      × SameResult second whole
unfolding parse_request_stateful
parse_request_stateful_resume state xs ys req policy k k' k'' first inside call early =
    by_mode state.mode state.phase state.cursor inside call
  where
    by_mode :
        (mode : ParserMode) (phase : ParserPhase) (cursor : ℕ)
        → let state' : ParserState = record { mode = mode; phase = phase; cursor = cursor } in
          cursor ≤ length xs
          → parse_request_stateful state' xs req policy k ≡ some first
          → (second whole : Parsed Request) × (parse_request_stateful first.state
                (xs ++ ys)
                first.out
                policy
                k'
              ≡ some second)
            × (parse_request_stateful state' (xs ++ ys) req policy k'' ≡ some whole)
            × SameResult second whole
    by_mode mode_request phase cursor inside call =
        let j =
          request_phase_resume (resolve_policy policy) xs ys phase mode_request cursor req first
            inside call early in
        (j.p, j.q, rw (parse_request_stateful, j.kept) j.second_is, j.whole_is, j.same)
    by_mode mode_response phase cursor inside call =
        let wrong = status_of_first _ call early in absurd (cc)
    by_mode mode_headers phase cursor inside call =
        let wrong = status_of_first _ call early in absurd (cc)
