-- ===== src/Parser/Stateful/Stable.antt =====
-- `ihtp_parse_request_stateful` of src/ihtp_parser.c when there is more behind a request.
use iohttpparser.Base.{
  ℕ, ◌+◌, ◌≤◌, ◌≡◌, ◌≢◌, refl, ap, sym, ◌∙◌, arith, Option, some, ◌++◌, Bytes, ltb, length, drop,
  memchr, length-drop, drop-append_left, Bool-cases, Option-cases, inl, inr, some-≡,
}
use iohttpparser.Parser.Headers.Resume.{parse_header_block_returns}
use iohttpparser.Parser.Headers.{parse_header_block}
use iohttpparser.Parser.Headers.Stable.{parse_header_block-append}
use iohttpparser.Parser.StartLine.Append.{
  parse_request_line-append, parse_request_line-Done, parse_request_line-none,
}
use iohttpparser.Parser.StartLine.{RequestLine, failed_request, parse_request_line}
use iohttpparser.Parser.Stateful.{
  HeaderArray, Parsed, resolve_policy, store_request, after_block, headers_phase, request_headers,
  request_line_done, request_phase, parse_request_stateful,
}
use iohttpparser.Parser.Stateful.HeadersPhase.{headers_phase_of, block_status-status}
use iohttpparser.Types.{
  Status, ok, incomplete, error, error_too_long, error_too_many_headers, ParserMode, mode_request,
  mode_response, mode_headers, ParserPhase, phase_start_line, phase_headers, phase_done,
  phase_error, ParserState, Request, Policy, max_request_line, max_headers_limit,
}

-- An answer that more bytes cannot change.
abbrev pub IsSettled : Status → Type 0
IsSettled status = (status ≢ incomplete) × (status ≢ error_too_long)

module _ {A : Type 0} where
  pub headers_phase-append :
      (state : ParserState) (xs ys : Bytes) (array : HeaderArray) (store : HeaderArray → A)
      (max_headers : ℕ) (policy : Policy) (p : Parsed A)
      → state.cursor ≤ length xs
      → headers_phase state xs array store max_headers policy ≡ some p
      → IsSettled p.status
      → headers_phase state (xs ++ ys) array store max_headers policy ≡ some p
  unfolding after_block
  headers_phase-append state xs ys array store max_headers policy p inside call settled =
      let front = drop state.cursor xs in
      let (r, e, _) =
        parse_header_block_returns state.cursor front array.headers array.num_headers max_headers
          policy in
      let same : after_block state store array.num_headers r ≡ p =
        some-≡ (sym (headers_phase_of state xs array store max_headers policy r e) ∙ call) in
      let status : r.status ≡ p.status =
        sym (block_status-status r.status _ _) ∙ ap (λ (p : Parsed A). p.status) same in
      let longer =
        ap
          (λ text.
            parse_header_block state.cursor text array.headers array.num_headers max_headers policy)
          (drop-append_left xs ys state.cursor inside)
        ∙ parse_header_block-append state.cursor front ys array.headers array.num_headers
            max_headers policy r e (λ h. settled.0 (sym status ∙ h))
            (λ h. settled.1 (sym status ∙ h)) in
      headers_phase_of state (xs ++ ys) array store max_headers policy r longer ∙ ap some same

module _ (policy : Policy) (xs ys : Bytes) (p : Parsed Request) (settled : IsSettled p.status) where
  abbrev at : ParserMode → ParserPhase → ℕ → ParserState
  at mode phase cursor = record { mode = mode; phase = phase; cursor = cursor }

  request_headers-append :
      (state : ParserState) (req : Request)
      → state.cursor ≤ length xs
      → request_headers state xs req policy ≡ some p
      → request_headers state (xs ++ ys) req policy ≡ some p
  unfolding request_headers
  request_headers-append state req inside call =
      headers_phase-append state xs ys
        (record { headers = req.headers; num_headers = req.num_headers }) (store_request req)
        max_headers_limit policy p inside call settled

  request_line_done-append :
      (status : Status) (state : ParserState) (r : RequestLine)
      → state.cursor + r.line_end ≤ length xs
      → request_line_done status state xs r policy ≡ some p
      → request_line_done status state (xs ++ ys) r policy ≡ some p
  unfolding request_line_done
  request_line_done-append ok state r inside call = request_headers-append _ r.req inside call
  request_line_done-append incomplete state r inside call = call
  request_line_done-append error state r inside call = call
  request_line_done-append error_too_long state r inside call = call
  request_line_done-append error_too_many_headers state r inside call = call

  abbrev line_of : ℕ → Bytes → Request → RequestLine
  line_of cursor buf req = parse_request_line cursor (drop cursor buf) req policy

  abbrev answer : ParserMode → ℕ → RequestLine → Option (Parsed Request)
  answer mode cursor r = request_line_done r.status (at mode phase_start_line cursor) xs r policy

  start_line-append :
      (mode : ParserMode) (cursor : ℕ) (req : Request)
      → cursor ≤ length xs
      → request_phase phase_start_line (at mode phase_start_line cursor) xs req policy ≡ some p
      → request_phase phase_start_line (at mode phase_start_line cursor) (xs ++ ys) req policy
        ≡ some p
  unfolding request_phase request_line_done
  start_line-append mode cursor req inside call =
      elim (Option-cases (memchr b'\n' (drop cursor xs))) [
        | inr (lf, found) ↦
            let same : line_of cursor (xs ++ ys) req ≡ line_of cursor xs req =
              ap (λ text. parse_request_line cursor text req policy)
                (drop-append_left xs ys cursor inside)
              ∙ parse_request_line-append cursor req policy (drop cursor xs) found ys in
            let done = parse_request_line-Done cursor req policy (drop cursor xs) found in
            rw same (
              request_line_done-append (line_of cursor xs req).status
                (at mode phase_start_line cursor) (line_of cursor xs req)
                (omega (arith, done.inside, length-drop cursor xs)) call)
        | inl missing ↦
            let nothing = parse_request_line-none cursor req policy (drop cursor xs) missing in
            elim (Bool-cases (ltb max_request_line (length (drop cursor xs)))) [
              | inl long ↦
                  let line : line_of cursor xs req ≡ failed_request req error_too_long =
                    nothing ∙ rw long refl in
                  absurd (
                    settled.1 (
                      sym (
                        ap (λ (p : Parsed Request). p.status)
                          (some-≡ (sym (ap (answer mode cursor) line) ∙ call)))))
              | inr short ↦
                  let line : line_of cursor xs req ≡ failed_request req incomplete =
                    nothing ∙ rw short refl in
                  absurd (
                    settled.0 (
                      sym (
                        ap (λ (p : Parsed Request). p.status)
                          (some-≡ (sym (ap (answer mode cursor) line) ∙ call)))))
            ]
      ]

  request_phase-append :
      (phase : ParserPhase) (mode : ParserMode) (cursor : ℕ) (req : Request)
      → cursor ≤ length xs
      → request_phase phase (at mode phase cursor) xs req policy ≡ some p
      → request_phase phase (at mode phase cursor) (xs ++ ys) req policy ≡ some p
  unfolding request_phase
  request_phase-append phase_error mode cursor req inside call = call
  request_phase-append phase_done mode cursor req inside call = call
  request_phase-append phase_headers mode cursor req inside call =
      request_headers-append (at mode phase_headers cursor) req inside call
  request_phase-append phase_start_line mode cursor req inside call =
      start_line-append mode cursor req inside call

-- An answer other than `INCOMPLETE` and `TOO_LONG` is final: with more bytes behind the buffer the
-- same call returns the same result, that is the status, the state, the request and the bytes
-- consumed. The cursor lies in the buffer.
pub parse_request_stateful-append :
    (state : ParserState) (xs ys : Bytes) (req : Request) (policy : Option Policy) (consumed : ℕ)
    (p : Parsed Request)
    → state.cursor ≤ length xs
    → parse_request_stateful state xs req policy consumed ≡ some p
    → p.status ≢ incomplete
    → p.status ≢ error_too_long
    → parse_request_stateful state (xs ++ ys) req policy consumed ≡ some p
unfolding parse_request_stateful
parse_request_stateful-append state xs ys req policy consumed p inside call no_more no_long =
    by_mode state.mode state.phase state.cursor inside call
  where
    by_mode :
        (mode : ParserMode) (phase : ParserPhase) (cursor : ℕ)
        → let s : ParserState = record { mode = mode; phase = phase; cursor = cursor } in
          cursor ≤ length xs
          → parse_request_stateful s xs req policy consumed ≡ some p
          → parse_request_stateful s (xs ++ ys) req policy consumed ≡ some p
    by_mode mode_request phase cursor inside call =
        request_phase-append (resolve_policy policy) xs ys p (no_more, no_long) phase mode_request
          cursor req inside call
    by_mode mode_response phase cursor inside call = call
    by_mode mode_headers phase cursor inside call = call
