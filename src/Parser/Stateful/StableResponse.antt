-- ===== src/Parser/Stateful/StableResponse.antt =====
-- `ihtp_parse_response_stateful` of src/ihtp_parser.c and
-- `ihtp_parse_headers_stateful` when there is more behind what they read.
use iohttpparser.Base.{
  ℕ, ◌+◌, ◌≤◌, ◌≡◌, ◌≢◌, ap, sym, ◌∙◌, arith, Option, some, ◌++◌, Bytes, length, drop, memchr,
  length-drop, drop-append_left, Option-cases, inl, inr, some-≡,
}
use iohttpparser.Parser.StartLine.AppendStatus.{
  parse_status_line-append, parse_status_line-Done, parse_status_line-none,
}
use iohttpparser.Parser.StartLine.{StatusLine, parse_status_line}
use iohttpparser.Parser.Stateful.{
  HeaderArray, Parsed, resolve_policy, store_response, response_headers, status_line_done,
  response_phase, parse_response_stateful, header_array_phase, parse_headers_stateful,
}
use iohttpparser.Parser.Stateful.Stable.{IsSettled, headers_phase-append}
use iohttpparser.Types.{
  Status, ok, incomplete, error, error_too_long, error_too_many_headers, ParserMode, mode_request,
  mode_response, mode_headers, ParserPhase, phase_start_line, phase_headers, phase_done,
  phase_error, ParserState, Response, Policy, max_headers_limit,
}

module _ (policy : Policy) (xs ys : Bytes) (p : Parsed Response)
    (settled : IsSettled p.status) where
  abbrev at : ParserMode → ParserPhase → ℕ → ParserState
  at mode phase cursor = record { mode = mode; phase = phase; cursor = cursor }

  response_headers-append :
      (state : ParserState) (resp : Response)
      → state.cursor ≤ length xs
      → response_headers state xs resp policy ≡ some p
      → response_headers state (xs ++ ys) resp policy ≡ some p
  unfolding response_headers
  response_headers-append state resp inside call =
      headers_phase-append state xs ys
        (record { headers = resp.headers; num_headers = resp.num_headers }) (store_response resp)
        max_headers_limit policy p inside call settled

  status_line_done-append :
      (status : Status) (state : ParserState) (r : StatusLine)
      → state.cursor + r.line_end ≤ length xs
      → status_line_done status state xs r policy ≡ some p
      → status_line_done status state (xs ++ ys) r policy ≡ some p
  unfolding status_line_done
  status_line_done-append ok state r inside call = response_headers-append _ r.resp inside call
  status_line_done-append incomplete state r inside call = call
  status_line_done-append error state r inside call = call
  status_line_done-append error_too_long state r inside call = call
  status_line_done-append error_too_many_headers state r inside call = call

  abbrev line_of : ℕ → Bytes → Response → StatusLine
  line_of cursor buf resp = parse_status_line cursor (drop cursor buf) resp policy

  abbrev answer : ParserMode → ℕ → StatusLine → Option (Parsed Response)
  answer mode cursor r = status_line_done r.status (at mode phase_start_line cursor) xs r policy

  start_line-append :
      (mode : ParserMode) (cursor : ℕ) (resp : Response)
      → cursor ≤ length xs
      → response_phase phase_start_line (at mode phase_start_line cursor) xs resp policy ≡ some p
      → response_phase phase_start_line (at mode phase_start_line cursor) (xs ++ ys) resp policy
        ≡ some p
  unfolding response_phase status_line_done
  start_line-append mode cursor resp inside call =
      elim (Option-cases (memchr b'\n' (drop cursor xs))) [
        | inr (lf, found) ↦
            let same : line_of cursor (xs ++ ys) resp ≡ line_of cursor xs resp =
              ap (λ text. parse_status_line cursor text resp policy)
                (drop-append_left xs ys cursor inside)
              ∙ parse_status_line-append cursor resp policy (drop cursor xs) found ys in
            let done = parse_status_line-Done cursor resp policy (drop cursor xs) found in
            rw same (
              status_line_done-append (line_of cursor xs resp).status
                (at mode phase_start_line cursor) (line_of cursor xs resp)
                (omega (arith, done.inside, length-drop cursor xs)) call)
        | inl missing ↦
            let nothing = parse_status_line-none cursor resp policy (drop cursor xs) missing in
            absurd (
              settled.0 (
                sym (
                  ap (λ (p : Parsed Response). p.status)
                    (some-≡ (sym (ap (answer mode cursor) nothing) ∙ call)))))
      ]

  response_phase-append :
      (phase : ParserPhase) (mode : ParserMode) (cursor : ℕ) (resp : Response)
      → cursor ≤ length xs
      → response_phase phase (at mode phase cursor) xs resp policy ≡ some p
      → response_phase phase (at mode phase cursor) (xs ++ ys) resp policy ≡ some p
  unfolding response_phase
  response_phase-append phase_error mode cursor resp inside call = call
  response_phase-append phase_done mode cursor resp inside call = call
  response_phase-append phase_headers mode cursor resp inside call =
      response_headers-append (at mode phase_headers cursor) resp inside call
  response_phase-append phase_start_line mode cursor resp inside call =
      start_line-append mode cursor resp inside call

-- An answer other than `INCOMPLETE` and `TOO_LONG` is final: with more bytes behind the buffer the
-- same call returns the same result, that is the status, the state, the response and the bytes
-- consumed. The cursor lies in the buffer.
pub parse_response_stateful-append :
    (state : ParserState) (xs ys : Bytes) (resp : Response) (policy : Option Policy) (consumed : ℕ)
    (p : Parsed Response)
    → state.cursor ≤ length xs
    → parse_response_stateful state xs resp policy consumed ≡ some p
    → p.status ≢ incomplete
    → p.status ≢ error_too_long
    → parse_response_stateful state (xs ++ ys) resp policy consumed ≡ some p
unfolding parse_response_stateful
parse_response_stateful-append state xs ys resp policy consumed p inside call no_more no_long =
    by_mode state.mode state.phase state.cursor inside call
  where
    by_mode :
        (mode : ParserMode) (phase : ParserPhase) (cursor : ℕ)
        → let s : ParserState = record { mode = mode; phase = phase; cursor = cursor } in
          cursor ≤ length xs
          → parse_response_stateful s xs resp policy consumed ≡ some p
          → parse_response_stateful s (xs ++ ys) resp policy consumed ≡ some p
    by_mode mode_response phase cursor inside call =
        response_phase-append (resolve_policy policy) xs ys p (no_more, no_long) phase mode_response
          cursor resp inside call
    by_mode mode_request phase cursor inside call = call
    by_mode mode_headers phase cursor inside call = call

-- The same of `ihtp_parse_headers_stateful`: an answer other than `INCOMPLETE` and `TOO_LONG` is
-- final.
pub parse_headers_stateful-append :
    (state : ParserState) (xs ys : Bytes) (array : HeaderArray) (max_headers : ℕ)
    (policy : Option Policy) (consumed : ℕ) (p : Parsed HeaderArray)
    → state.cursor ≤ length xs
    → parse_headers_stateful state xs array max_headers policy consumed ≡ some p
    → p.status ≢ incomplete
    → p.status ≢ error_too_long
    → parse_headers_stateful state (xs ++ ys) array max_headers policy consumed ≡ some p
unfolding parse_headers_stateful header_array_phase
parse_headers_stateful-append state xs ys array max_headers policy consumed p inside call no_more
      no_long =
    by_mode state.mode state.phase state.cursor inside call
  where
    by_phase :
        (phase : ParserPhase) (cursor : ℕ)
        → let s : ParserState = record { mode = mode_headers; phase = phase; cursor = cursor } in
          cursor ≤ length xs
          → header_array_phase phase s xs array max_headers (resolve_policy policy) ≡ some p
          → header_array_phase phase s (xs ++ ys) array max_headers (resolve_policy policy) ≡ some p
    by_phase phase_error cursor inside call = call
    by_phase phase_done cursor inside call = call
    by_phase phase_start_line cursor inside call = call
    by_phase phase_headers cursor inside call =
        headers_phase-append _ xs ys array (λ a. a) max_headers (resolve_policy policy) p inside
          call (no_more, no_long)

    by_mode :
        (mode : ParserMode) (phase : ParserPhase) (cursor : ℕ)
        → let s : ParserState = record { mode = mode; phase = phase; cursor = cursor } in
          cursor ≤ length xs
          → parse_headers_stateful s xs array max_headers policy consumed ≡ some p
          → parse_headers_stateful s (xs ++ ys) array max_headers policy consumed ≡ some p
    by_mode mode_request phase cursor inside call = call
    by_mode mode_response phase cursor inside call = call
    by_mode mode_headers phase cursor inside call = by_phase phase cursor inside call
