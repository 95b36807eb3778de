-- ===== src/Parser/Stateful/Reach/EntryPoints.antt =====
-- The cursor behind a call of the stateful entry points of src/ihtp_parser.c.
use iohttpparser.Base.{
  ℕ, ◌+◌, ◌≤◌, ◌≡◌, arith, Option, some, Bytes, length, drop, memchr, length-drop, Option-cases,
  inl, inr,
}
use iohttpparser.Parser.StartLine.Append.{parse_request_line-Done, parse_request_line-none}
use iohttpparser.Parser.StartLine.AppendStatus.{parse_status_line-Done, parse_status_line-none}
use iohttpparser.Parser.StartLine.{RequestLine, StatusLine, parse_request_line, parse_status_line}
use iohttpparser.Parser.Stateful.{
  HeaderArray, Parsed, resolve_policy, store_request, store_response, request_headers,
  response_headers, request_line_done, status_line_done, request_phase, response_phase,
  header_array_phase, parse_request_stateful, parse_response_stateful, parse_headers_stateful,
}
use iohttpparser.Types.{
  Status, ok, incomplete, error, error_too_long, error_too_many_headers, ParserMode, mode_request,
  mode_response, mode_headers, ParserPhase, phase_start_line, phase_headers, phase_done,
  phase_error, ParserState, Request, Response, Policy, max_headers_limit,
}
use iohttpparser.Parser.Stateful.Totality.{request_returns, response_returns, headers_returns}
use iohttpparser.Parser.Stateful.Reach.{at, headers_phase_reach, cursor_of}

module _ (policy : Policy) (buf : Bytes) (mode : ParserMode) (cursor : ℕ)
    (inside : cursor ≤ length buf) where
  request_line_done_reach :
      (status : Status) (r : RequestLine) (p : Parsed Request)
      → cursor + r.line_end ≤ length buf
      → request_line_done status (at mode phase_start_line cursor) buf r policy ≡ some p
      → p.state.cursor ≤ length buf
  unfolding request_line_done request_headers
  request_line_done_reach ok r p fits call =
      headers_phase_reach (at mode phase_headers (cursor + r.line_end)) buf _ (store_request r.req)
        max_headers_limit policy p fits call
  request_line_done_reach incomplete r p fits call = cursor_of _ call inside
  request_line_done_reach error r p fits call = cursor_of _ call inside
  request_line_done_reach error_too_long r p fits call = cursor_of _ call inside
  request_line_done_reach error_too_many_headers r p fits call = cursor_of _ call inside

  status_line_done_reach :
      (status : Status) (r : StatusLine) (p : Parsed Response)
      → cursor + r.line_end ≤ length buf
      → status_line_done status (at mode phase_start_line cursor) buf r policy ≡ some p
      → p.state.cursor ≤ length buf
  unfolding status_line_done response_headers
  status_line_done_reach ok r p fits call =
      headers_phase_reach (at mode phase_headers (cursor + r.line_end)) buf _
        (store_response r.resp) max_headers_limit policy p fits call
  status_line_done_reach incomplete r p fits call = cursor_of _ call inside
  status_line_done_reach error r p fits call = cursor_of _ call inside
  status_line_done_reach error_too_long r p fits call = cursor_of _ call inside
  status_line_done_reach error_too_many_headers r p fits call = cursor_of _ call inside

  -- The end of a start line lies in the buffer.
  request_line_fits :
      (req : Request)
      → cursor + (parse_request_line cursor (drop cursor buf) req policy).line_end ≤ length buf
  request_line_fits req = elim (Option-cases (memchr b'\n' (drop cursor buf))) [
    | inl missing ↦
        rw (parse_request_line-none cursor req policy (drop cursor buf) missing) (omega arith)
    | inr (lf, found) ↦
        let done = parse_request_line-Done cursor req policy (drop cursor buf) found in
        omega (arith, done.inside, length-drop cursor buf)
  ]

  status_line_fits :
      (resp : Response)
      → cursor + (parse_status_line cursor (drop cursor buf) resp policy).line_end ≤ length buf
  status_line_fits resp = elim (Option-cases (memchr b'\n' (drop cursor buf))) [
    | inl missing ↦
        rw (parse_status_line-none cursor resp policy (drop cursor buf) missing) (omega arith)
    | inr (lf, found) ↦
        let done = parse_status_line-Done cursor resp policy (drop cursor buf) found in
        omega (arith, done.inside, length-drop cursor buf)
  ]

  request_phase_reach :
      (phase : ParserPhase) (req : Request) (p : Parsed Request)
      → request_phase phase (at mode phase cursor) buf req policy ≡ some p
      → p.state.cursor ≤ length buf
  unfolding request_phase request_headers
  request_phase_reach phase_error req p call = cursor_of _ call inside
  request_phase_reach phase_done req p call = cursor_of _ call inside
  request_phase_reach phase_headers req p call =
      headers_phase_reach _ buf _ (store_request req) max_headers_limit policy p inside call
  request_phase_reach phase_start_line req p call =
      request_line_done_reach _ _ p (request_line_fits req) call

  response_phase_reach :
      (phase : ParserPhase) (resp : Response) (p : Parsed Response)
      → response_phase phase (at mode phase cursor) buf resp policy ≡ some p
      → p.state.cursor ≤ length buf
  unfolding response_phase response_headers
  response_phase_reach phase_error resp p call = cursor_of _ call inside
  response_phase_reach phase_done resp p call = cursor_of _ call inside
  response_phase_reach phase_headers resp p call =
      headers_phase_reach _ buf _ (store_response resp) max_headers_limit policy p inside call
  response_phase_reach phase_start_line resp p call =
      status_line_done_reach _ _ p (status_line_fits resp) call

  header_array_phase_reach :
      (phase : ParserPhase) (array : HeaderArray) (max_headers : ℕ) (p : Parsed HeaderArray)
      → header_array_phase phase (at mode phase cursor) buf array max_headers policy ≡ some p
      → p.state.cursor ≤ length buf
  unfolding header_array_phase
  header_array_phase_reach phase_error array max_headers p call = cursor_of _ call inside
  header_array_phase_reach phase_done array max_headers p call = cursor_of _ call inside
  header_array_phase_reach phase_start_line array max_headers p call = cursor_of _ call inside
  header_array_phase_reach phase_headers array max_headers p call =
      headers_phase_reach _ buf array (λ a. a) max_headers policy p inside call

pub parse_request_stateful_reach :
    (state : ParserState) (buf : Bytes) (req : Request) (policy : Option Policy) (consumed : ℕ)
    (p : Parsed Request)
    → state.cursor ≤ length buf
    → parse_request_stateful state buf req policy consumed ≡ some p
    → p.state.cursor ≤ length buf
unfolding parse_request_stateful
parse_request_stateful_reach state buf req policy consumed p inside call =
    by_mode state.mode state.phase state.cursor inside call
  where
    by_mode :
        (mode : ParserMode) (phase : ParserPhase) (cursor : ℕ)
        → cursor ≤ length buf
        → parse_request_stateful
            (record { mode = mode; phase = phase; cursor = cursor })
            buf
            req
            policy
            consumed
          ≡ some p
        → p.state.cursor ≤ length buf
    by_mode mode_request phase cursor inside call =
        request_phase_reach (resolve_policy policy) buf mode_request cursor inside phase req p call
    by_mode mode_response phase cursor inside call = cursor_of _ call inside
    by_mode mode_headers phase cursor inside call = cursor_of _ call inside

pub parse_response_stateful_reach :
    (state : ParserState) (buf : Bytes) (resp : Response) (policy : Option Policy) (consumed : ℕ)
    (p : Parsed Response)
    → state.cursor ≤ length buf
    → parse_response_stateful state buf resp policy consumed ≡ some p
    → p.state.cursor ≤ length buf
unfolding parse_response_stateful
parse_response_stateful_reach state buf resp policy consumed p inside call =
    by_mode state.mode state.phase state.cursor inside call
  where
    by_mode :
        (mode : ParserMode) (phase : ParserPhase) (cursor : ℕ)
        → cursor ≤ length buf
        → parse_response_stateful
            (record { mode = mode; phase = phase; cursor = cursor })
            buf
            resp
            policy
            consumed
          ≡ some p
        → p.state.cursor ≤ length buf
    by_mode mode_request phase cursor inside call = cursor_of _ call inside
    by_mode mode_response phase cursor inside call =
        response_phase_reach (resolve_policy policy) buf mode_response cursor inside phase resp p
          call
    by_mode mode_headers phase cursor inside call = cursor_of _ call inside

pub parse_headers_stateful_reach :
    (state : ParserState) (buf : Bytes) (array : HeaderArray) (max_headers : ℕ)
    (policy : Option Policy) (consumed : ℕ) (p : Parsed HeaderArray)
    → state.cursor ≤ length buf
    → parse_headers_stateful state buf array max_headers policy consumed ≡ some p
    → p.state.cursor ≤ length buf
unfolding parse_headers_stateful
parse_headers_stateful_reach state buf array max_headers policy consumed p inside call =
    by_mode state.mode state.phase state.cursor inside call
  where
    by_mode :
        (mode : ParserMode) (phase : ParserPhase) (cursor : ℕ)
        → cursor ≤ length buf
        → parse_headers_stateful
            (record { mode = mode; phase = phase; cursor = cursor })
            buf
            array
            max_headers
            policy
            consumed
          ≡ some p
        → p.state.cursor ≤ length buf
    by_mode mode_request phase cursor inside call = cursor_of _ call inside
    by_mode mode_response phase cursor inside call = cursor_of _ call inside
    by_mode mode_headers phase cursor inside call =
        header_array_phase_reach (resolve_policy policy) buf mode_headers cursor inside phase array
          max_headers p call

-- What a call of an entry point gives: it returns, with the cursor in the buffer.
abbrev pub ReturnsInside : {A : Type 0} → ℕ → Option (Parsed A) → Type 0
ReturnsInside {A} len call = (p : Parsed A) × (call ≡ some p) × (p.state.cursor ≤ len)

-- With the cursor in the buffer, every call of the three stateful entry points returns, and leaves
-- the cursor in the buffer: in every mode and phase, on every buffer and every output record, under
-- every policy, with failures as with successes.
pub entry_points-ReturnsInside :
    (state : ParserState) (buf : Bytes) (req : Request) (resp : Response) (array : HeaderArray)
    (max_headers : ℕ) (policy : Option Policy) (consumed : ℕ)
    → state.cursor ≤ length buf
    → ReturnsInside (length buf) (parse_request_stateful state buf req policy consumed)
      × ReturnsInside (length buf) (parse_response_stateful state buf resp policy consumed)
      × ReturnsInside
          (length buf)
          (parse_headers_stateful state buf array max_headers policy consumed)
entry_points-ReturnsInside state buf req resp array max_headers policy consumed inside =
    let (p, request) = request_returns state buf req policy consumed in
    let (q, response) = response_returns state buf resp policy consumed in
    let (r, headers) = headers_returns state buf array max_headers policy consumed in
    (
      (p, request, parse_request_stateful_reach state buf req policy consumed p inside request),
      (q, response, parse_response_stateful_reach state buf resp policy consumed q inside response),
      (
        r,
        headers,
        parse_headers_stateful_reach state buf array max_headers policy consumed r inside headers,
      ),
    )
