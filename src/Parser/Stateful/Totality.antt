-- ===== src/Parser/Stateful/Totality.antt =====
-- The results of the stateful entry points of src/ihtp_parser.c.
use iohttpparser.Base.{ℕ, ◌≡◌, refl, Option, some, [], Bytes}
use iohttpparser.Parser.StartLine.{RequestLine, StatusLine}
use iohttpparser.Parser.Stateful.{
  HeaderArray, Parsed, resolve_policy, store_request, store_response, request_headers,
  response_headers, request_line_done, status_line_done, request_phase, response_phase,
  header_array_phase, parse_request_stateful, parse_response_stateful, parse_headers_stateful,
}
use iohttpparser.Parser.Stateful.HeadersPhase.{headers_phase_returns}
use iohttpparser.Types.{
  Status, ok, incomplete, error, error_too_long, error_too_many_headers, ParserMode, mode_request,
  mode_response, mode_headers, ParserPhase, phase_start_line, phase_headers, phase_done,
  phase_error, ParserState, Request, Response, zero_request, zero_response, Policy,
  max_headers_limit,
}

abbrev pub Returned : {A : Type 0} → Option (Parsed A) → Type 0
Returned {A = A} o = (p : Parsed A) × (o ≡ some p)

module _ (policy : Policy) where
  request_headers-Returned :
      (state : ParserState) (buf : Bytes) (req : Request)
      → Returned (request_headers state buf req policy)
  unfolding request_headers
  request_headers-Returned state buf req =
      headers_phase_returns state buf
        (record { headers = req.headers; num_headers = req.num_headers }) (store_request req)
        max_headers_limit policy

  response_headers-Returned :
      (state : ParserState) (buf : Bytes) (resp : Response)
      → Returned (response_headers state buf resp policy)
  unfolding response_headers
  response_headers-Returned state buf resp =
      headers_phase_returns state buf
        (record { headers = resp.headers; num_headers = resp.num_headers }) (store_response resp)
        max_headers_limit policy

  request_line_done-Returned :
      (status : Status) (state : ParserState) (buf : Bytes) (r : RequestLine)
      → Returned (request_line_done status state buf r policy)
  unfolding request_line_done
  request_line_done-Returned ok state buf r = request_headers-Returned _ buf r.req
  request_line_done-Returned incomplete state buf r = (_, refl)
  request_line_done-Returned error state buf r = (_, refl)
  request_line_done-Returned error_too_long state buf r = (_, refl)
  request_line_done-Returned error_too_many_headers state buf r = (_, refl)

  status_line_done-Returned :
      (status : Status) (state : ParserState) (buf : Bytes) (r : StatusLine)
      → Returned (status_line_done status state buf r policy)
  unfolding status_line_done
  status_line_done-Returned ok state buf r = response_headers-Returned _ buf r.resp
  status_line_done-Returned incomplete state buf r = (_, refl)
  status_line_done-Returned error state buf r = (_, refl)
  status_line_done-Returned error_too_long state buf r = (_, refl)
  status_line_done-Returned error_too_many_headers state buf r = (_, refl)

  pub request_phase-Returned :
      (phase : ParserPhase) (state : ParserState) (buf : Bytes) (req : Request)
      → Returned (request_phase phase state buf req policy)
  unfolding request_phase
  request_phase-Returned phase_error state buf req = (_, refl)
  request_phase-Returned phase_done state buf req = (_, refl)
  request_phase-Returned phase_headers state buf req = request_headers-Returned state buf req
  request_phase-Returned phase_start_line state buf req = request_line_done-Returned _ state buf _

  pub response_phase-Returned :
      (phase : ParserPhase) (state : ParserState) (buf : Bytes) (resp : Response)
      → Returned (response_phase phase state buf resp policy)
  unfolding response_phase
  response_phase-Returned phase_error state buf resp = (_, refl)
  response_phase-Returned phase_done state buf resp = (_, refl)
  response_phase-Returned phase_headers state buf resp = response_headers-Returned state buf resp
  response_phase-Returned phase_start_line state buf resp = status_line_done-Returned _ state buf _

  pub header_array_phase-Returned :
      (phase : ParserPhase) (state : ParserState) (buf : Bytes) (array : HeaderArray)
      (max_headers : ℕ)
      → Returned (header_array_phase phase state buf array max_headers policy)
  unfolding header_array_phase
  header_array_phase-Returned phase_error state buf array max_headers = (_, refl)
  header_array_phase-Returned phase_done state buf array max_headers = (_, refl)
  header_array_phase-Returned phase_start_line state buf array max_headers = (_, refl)
  header_array_phase-Returned phase_headers state buf array max_headers =
      headers_phase_returns state buf array (λ a. a) max_headers policy

-- The fuel of the header block is enough in every call.
pub entry_points-Returned :
    (state : ParserState) (buf : Bytes) (req : Request) (resp : Response) (array : HeaderArray)
    (max_headers : ℕ) (policy : Option Policy) (consumed : ℕ)
    → Returned (parse_request_stateful state buf req policy consumed)
      × Returned (parse_response_stateful state buf resp policy consumed)
      × Returned (parse_headers_stateful state buf array max_headers policy consumed)
unfolding parse_request_stateful parse_response_stateful parse_headers_stateful
entry_points-Returned state buf req resp array max_headers policy consumed = by_mode state.mode
  where
    by_mode :
        (mode : ParserMode)
        → let s : ParserState = record state { mode = mode } in
          Returned (parse_request_stateful s buf req policy consumed)
          × Returned (parse_response_stateful s buf resp policy consumed)
          × Returned (parse_headers_stateful s buf array max_headers policy consumed)
    by_mode mode_request =
        (request_phase-Returned (resolve_policy policy) state.phase _ buf req, (_, refl), (_, refl))
    by_mode mode_response = (
      (_, refl),
      response_phase-Returned (resolve_policy policy) state.phase _ buf resp,
      (_, refl),
    )
    by_mode mode_headers = (
      (_, refl),
      (_, refl),
      header_array_phase-Returned (resolve_policy policy) state.phase _ buf array max_headers,
    )

pub request_returns :
    (state : ParserState) (buf : Bytes) (req : Request) (policy : Option Policy) (consumed : ℕ)
    → Returned (parse_request_stateful state buf req policy consumed)
request_returns state buf req policy consumed =
    (entry_points-Returned state buf req zero_response (record { headers = []; num_headers = 0 }) 0
      policy consumed).0

pub response_returns :
    (state : ParserState) (buf : Bytes) (resp : Response) (policy : Option Policy) (consumed : ℕ)
    → Returned (parse_response_stateful state buf resp policy consumed)
response_returns state buf resp policy consumed =
    (entry_points-Returned state buf zero_request resp (record { headers = []; num_headers = 0 }) 0
      policy consumed).1

pub headers_returns :
    (state : ParserState) (buf : Bytes) (array : HeaderArray) (max_headers : ℕ)
    (policy : Option Policy) (consumed : ℕ)
    → Returned (parse_headers_stateful state buf array max_headers policy consumed)
headers_returns state buf array max_headers policy consumed =
    (entry_points-Returned state buf zero_request zero_response array max_headers policy consumed).2
