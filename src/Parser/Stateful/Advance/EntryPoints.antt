-- ===== src/Parser/Stateful/Advance/EntryPoints.antt =====
-- The stateful entry points of src/ihtp_parser.c move the parser state.
use iohttpparser.Base.{ℕ, ◌+◌, ◌≡◌, refl, subst, Option, some, [], Bytes, some-≡}
use iohttpparser.Parser.StartLine.{RequestLine, StatusLine}
use iohttpparser.Parser.Stateful.{
  HeaderArray, Parsed, resolve_policy, store_request, store_response, request_headers,
  response_headers, request_line_done, status_line_done, request_phase, response_phase,
  header_array_phase, parse_request_stateful, parse_response_stateful, parse_headers_stateful,
}
use iohttpparser.Parser.Stateful.Totality.{entry_points-Returned}
use iohttpparser.Types.{
  Status, ok, incomplete, error, error_too_long, error_too_many_headers, ParserMode, mode_request,
  mode_response, mode_headers, ParserPhase, phase_start_line, phase_headers, phase_done,
  phase_error, ParserState, Request, Response, zero_response, Policy, max_headers_limit,
}
use iohttpparser.Parser.Stateful.Advance.{
  Moves, at, from_start, headers_phase-Moves, start_line_failed, unchanged,
}

module _ (policy : Policy) (buf : Bytes) (mode : ParserMode) (cursor : ℕ) where
  request_line_done-Moves :
      (status : Status) (r : RequestLine) (p : Parsed Request)
      → request_line_done status (at mode phase_start_line cursor) buf r policy ≡ some p
      → Moves (at mode phase_start_line cursor) p
  unfolding request_line_done request_headers
  request_line_done-Moves ok r p call = from_start r.line_end (
      headers_phase-Moves mode (cursor + r.line_end) buf _ (store_request r.req) max_headers_limit
        policy p call)
  request_line_done-Moves incomplete r p call =
      subst (Moves (at mode phase_start_line cursor)) (some-≡ call)
        (unchanged _ incomplete _ 0 (λ h. absurd (cc)))
  request_line_done-Moves error r p call =
      subst (Moves (at mode phase_start_line cursor)) (some-≡ call)
        (start_line_failed mode cursor error _ (cc))
  request_line_done-Moves error_too_long r p call =
      subst (Moves (at mode phase_start_line cursor)) (some-≡ call)
        (start_line_failed mode cursor error_too_long _ (cc))
  request_line_done-Moves error_too_many_headers r p call =
      subst (Moves (at mode phase_start_line cursor)) (some-≡ call)
        (unchanged _ error_too_many_headers _ 0 (λ h. absurd (cc)))

  status_line_done-Moves :
      (status : Status) (r : StatusLine) (p : Parsed Response)
      → status_line_done status (at mode phase_start_line cursor) buf r policy ≡ some p
      → Moves (at mode phase_start_line cursor) p
  unfolding status_line_done response_headers
  status_line_done-Moves ok r p call = from_start r.line_end (
      headers_phase-Moves mode (cursor + r.line_end) buf _ (store_response r.resp) max_headers_limit
        policy p call)
  status_line_done-Moves incomplete r p call =
      subst (Moves (at mode phase_start_line cursor)) (some-≡ call)
        (unchanged _ incomplete _ 0 (λ h. absurd (cc)))
  status_line_done-Moves error r p call =
      subst (Moves (at mode phase_start_line cursor)) (some-≡ call)
        (start_line_failed mode cursor error _ (cc))
  status_line_done-Moves error_too_long r p call =
      subst (Moves (at mode phase_start_line cursor)) (some-≡ call)
        (unchanged _ error_too_long _ 0 (λ h. absurd (cc)))
  status_line_done-Moves error_too_many_headers r p call =
      subst (Moves (at mode phase_start_line cursor)) (some-≡ call)
        (unchanged _ error_too_many_headers _ 0 (λ h. absurd (cc)))

  request_phase-Moves :
      (phase : ParserPhase) (req : Request) (p : Parsed Request)
      → request_phase phase (at mode phase cursor) buf req policy ≡ some p
      → Moves (at mode phase cursor) p
  unfolding request_phase request_headers
  request_phase-Moves phase_error req p call =
      subst (Moves (at mode phase_error cursor)) (some-≡ call)
        (unchanged _ error _ 0 (λ h. absurd (cc)))
  request_phase-Moves phase_done req p call =
      subst (Moves (at mode phase_done cursor)) (some-≡ call) (unchanged _ ok _ cursor (λ h. refl))
  request_phase-Moves phase_headers req p call =
      headers_phase-Moves mode cursor buf _ (store_request req) max_headers_limit policy p call
  request_phase-Moves phase_start_line req p call = request_line_done-Moves _ _ p call

  response_phase-Moves :
      (phase : ParserPhase) (resp : Response) (p : Parsed Response)
      → response_phase phase (at mode phase cursor) buf resp policy ≡ some p
      → Moves (at mode phase cursor) p
  unfolding response_phase response_headers
  response_phase-Moves phase_error resp p call =
      subst (Moves (at mode phase_error cursor)) (some-≡ call)
        (unchanged _ error _ 0 (λ h. absurd (cc)))
  response_phase-Moves phase_done resp p call =
      subst (Moves (at mode phase_done cursor)) (some-≡ call) (unchanged _ ok _ cursor (λ h. refl))
  response_phase-Moves phase_headers resp p call =
      headers_phase-Moves mode cursor buf _ (store_response resp) max_headers_limit policy p call
  response_phase-Moves phase_start_line resp p call = status_line_done-Moves _ _ p call

  header_array_phase-Moves :
      (phase : ParserPhase) (array : HeaderArray) (max_headers : ℕ) (p : Parsed HeaderArray)
      → header_array_phase phase (at mode phase cursor) buf array max_headers policy ≡ some p
      → Moves (at mode phase cursor) p
  unfolding header_array_phase
  header_array_phase-Moves phase_error array max_headers p call =
      subst (Moves (at mode phase_error cursor)) (some-≡ call)
        (unchanged _ error _ 0 (λ h. absurd (cc)))
  header_array_phase-Moves phase_done array max_headers p call =
      subst (Moves (at mode phase_done cursor)) (some-≡ call) (unchanged _ ok _ cursor (λ h. refl))
  header_array_phase-Moves phase_start_line array max_headers p call =
      subst (Moves (at mode phase_start_line cursor)) (some-≡ call)
        (start_line_failed mode cursor error _ (cc))
  header_array_phase-Moves phase_headers array max_headers p call =
      headers_phase-Moves mode cursor buf array (λ a. a) max_headers policy p call

-- What a call of one of the three stateful entry points does to the parser state, in every mode
-- and phase and on every buffer: the mode stays, the cursor does not go back, the phase makes at
-- most a move of the state machine (a start line to headers, done or error, headers to done or
-- error), and after `OK` the phase is done.
pub entry_points-Moves :
    (state : ParserState) (buf : Bytes) (req : Request) (resp : Response) (array : HeaderArray)
    (max_headers : ℕ) (policy : Option Policy) (consumed : ℕ) (p : Parsed Request)
    (q : Parsed Response) (r : Parsed HeaderArray)
    → parse_request_stateful state buf req policy consumed ≡ some p
    → parse_response_stateful state buf resp policy consumed ≡ some q
    → parse_headers_stateful state buf array max_headers policy consumed ≡ some r
    → Moves state p × Moves state q × Moves state r
unfolding parse_request_stateful parse_response_stateful parse_headers_stateful
entry_points-Moves state buf req resp array max_headers policy consumed p q r call_p call_q call_r =
    by_mode state.mode state.phase state.cursor call_p call_q call_r
  where
    refusing :
        {A : Type 0} (s : ParserState) (out : A) (p : Parsed A)
        → some (record { status = error; state = s; out = out; bytes_consumed = consumed }) ≡ some p
        → Moves s p
    refusing s out p call =
        subst (Moves s) (some-≡ call) (unchanged s error out consumed (λ h. absurd (cc)))

    by_mode :
        (mode : ParserMode) (phase : ParserPhase) (cursor : ℕ)
        → let s : ParserState = record { mode = mode; phase = phase; cursor = cursor } in
          parse_request_stateful s buf req policy consumed ≡ some p
          → parse_response_stateful s buf resp policy consumed ≡ some q
          → parse_headers_stateful s buf array max_headers policy consumed ≡ some r
          → Moves s p × Moves s q × Moves s r
    by_mode mode_request phase cursor call_p call_q call_r = (
      request_phase-Moves (resolve_policy policy) buf mode_request cursor phase req p call_p,
      refusing _ resp q call_q,
      refusing _ array r call_r,
    )
    by_mode mode_response phase cursor call_p call_q call_r = (
      refusing _ req p call_p,
      response_phase-Moves (resolve_policy policy) buf mode_response cursor phase resp q call_q,
      refusing _ array r call_r,
    )
    by_mode mode_headers phase cursor call_p call_q call_r = (
      refusing _ req p call_p,
      refusing _ resp q call_q,
      header_array_phase-Moves (resolve_policy policy) buf mode_headers cursor phase array
          max_headers r call_r,
    )

pub parse_request_stateful_mode :
    (state : ParserState) (buf : Bytes) (req : Request) (policy : Option Policy) (consumed : ℕ)
    (p : Parsed Request)
    → parse_request_stateful state buf req policy consumed ≡ some p
    → p.state.mode ≡ state.mode
parse_request_stateful_mode state buf req policy consumed p call =
    let array : HeaderArray = record { headers = []; num_headers = 0 } in
    let (_, (q, call_q), (r, call_r)) =
      entry_points-Returned state buf req zero_response array 0 policy consumed in
    let moves =
      entry_points-Moves state buf req zero_response array 0 policy consumed p q r call call_q
        call_r in
    moves.0.same_mode
