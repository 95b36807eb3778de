-- ===== src/Parser/Stateful.antt =====
-- The parser state and the public entry points of src/ihtp_parser.c. A `none` means that the
-- fuel of the header block's loop ran out. The cursor is taken to lie in the buffer: beyond it the
-- code computes `len - cursor` modulo 2 ^ 64 and reads outside, while `drop` gives no bytes.
pub mod Incremental
pub mod Joined
pub mod Responses
pub mod Invariant
pub mod Advance
pub mod Stable
pub mod StableResponse
pub mod HeaderArrays
pub mod Reach
pub mod RoundTrip
pub mod Pieces
pub mod Totality
pub mod HeadersPhase
use iohttpparser.Base.{
  ℕ, ◌+◌, Bool, true, false, Option, none, some, List, Bytes, if◌then◌else◌, drop,
}
use iohttpparser.Parser.Headers.{BlockReturn, parse_header_block}
use iohttpparser.Parser.StartLine.{RequestLine, StatusLine, parse_request_line, parse_status_line}
use iohttpparser.Types.{
  Status, ok, incomplete, error, error_too_long, error_too_many_headers, ParserMode, mode_request,
  mode_response, mode_headers, ParserPhase, phase_start_line, phase_headers, phase_done,
  phase_error, ParserState, Header, Request, Response, Policy, policy_strict, max_headers_limit,
  zero_request, zero_response,
}

abbrev pub first_phase : ParserMode → ParserPhase
first_phase mode_headers = phase_headers
first_phase _ = phase_start_line

unfoldable pub parser_state_init : ParserMode → ParserState
parser_state_init mode = record { mode = mode; phase = first_phase mode; cursor = 0 }

unfoldable pub parser_state_reset : ParserState → ParserState
parser_state_reset state = record state { phase = first_phase state.mode; cursor = 0 }

unfoldable pub resolve_policy : Option Policy → Policy
resolve_policy none = policy_strict
resolve_policy (some policy) = policy

abbrev pub parser_state_error : ParserState → ParserState
parser_state_error state = record state { phase = phase_error }

-- What an entry point leaves: the status, the state, the output `A` and `*bytes_consumed`.
pub record Parsed (A : Type 0) : Type 0 where
  pub status : Status
  pub state : ParserState
  pub out : A
  pub bytes_consumed : ℕ

-- A header array and its `num_headers`.
pub record HeaderArray : Type 0 where
  pub headers : List Header
  pub num_headers : ℕ

abbrev pub stay {ℓ} : {B : Type ℓ} → Option B → B → B
stay none b = b
stay (some c) b = c

module _ {A : Type 0} where
  -- A return that leaves the state and the output as they are; `*bytes_consumed` is 0 by then.
  abbrev pub returned : Status → ParserState → A → Parsed A
  returned status state out = record {
    status = status;
    state = state;
    out = out;
    bytes_consumed = 0;
  }

  -- A return of `parse_header_block`: the cursor moves by `block_end`, and the phase follows the
  -- status. `store` puts the array and its count into the output.
  pub block_status : Status → ParserState → A → Parsed A
  block_status ok state out = record {
    status = ok;
    state = record state { phase = phase_done };
    out = out;
    bytes_consumed = state.cursor;
  }
  block_status incomplete state out = returned incomplete state out
  block_status status state out = returned status (parser_state_error state) out

  pub after_block : ParserState → (HeaderArray → A) → ℕ → BlockReturn → Parsed A
  unfolding block_status
  after_block state store count r =
      let moved = record state { cursor = state.cursor + stay r.block_end 0 } in
      let array : HeaderArray = record {
        headers = r.headers;
        num_headers = stay r.num_headers count;
      } in
      block_status r.status moved (store array)

  -- `case IHTP_PARSER_PHASE_HEADERS` of the entry points.
  pub headers_phase :
      ParserState → Bytes → HeaderArray → (HeaderArray → A) → ℕ → Policy → Option (Parsed A)
  unfolding after_block
  headers_phase state buf array store max_headers policy =
      elim (parse_header_block state.cursor (drop state.cursor buf) array.headers array.num_headers
        max_headers policy) [
          | none ↦ none
          | some r ↦ some (after_block state store array.num_headers r)
        ]

abbrev pub store_request : Request → HeaderArray → Request
store_request req a = record req { headers = a.headers; num_headers = a.num_headers }

abbrev pub store_response : Response → HeaderArray → Response
store_response resp a = record resp { headers = a.headers; num_headers = a.num_headers }

pub request_headers : ParserState → Bytes → Request → Policy → Option (Parsed Request)
unfolding headers_phase
request_headers state buf req policy =
    headers_phase state buf (record { headers = req.headers; num_headers = req.num_headers })
      (store_request req) max_headers_limit policy

pub response_headers : ParserState → Bytes → Response → Policy → Option (Parsed Response)
unfolding headers_phase
response_headers state buf resp policy =
    headers_phase state buf (record { headers = resp.headers; num_headers = resp.num_headers })
      (store_response resp) max_headers_limit policy

-- On what `parse_request_line` returned.
pub request_line_done :
    Status → ParserState → Bytes → RequestLine → Policy → Option (Parsed Request)
unfolding request_headers
request_line_done ok state buf r policy =
    request_headers (record state { cursor = state.cursor + r.line_end; phase = phase_headers }) buf
      r.req policy
request_line_done error state buf r policy = some (returned error (parser_state_error state) r.req)
request_line_done error_too_long state buf r policy =
    some (returned error_too_long (parser_state_error state) r.req)
request_line_done status state buf r policy = some (returned status state r.req)

pub status_line_done : Status → ParserState → Bytes → StatusLine → Policy → Option (Parsed Response)
unfolding response_headers
status_line_done ok state buf r policy =
    response_headers (record state { cursor = state.cursor + r.line_end; phase = phase_headers })
      buf r.resp policy
status_line_done error state buf r policy = some (returned error (parser_state_error state) r.resp)
status_line_done status state buf r policy = some (returned status state r.resp)

pub request_phase : ParserPhase → ParserState → Bytes → Request → Policy → Option (Parsed Request)
unfolding request_line_done
request_phase phase_error state buf req policy = some (returned error state req)
request_phase phase_done state buf req policy =
    some (record { status = ok; state = state; out = req; bytes_consumed = state.cursor })
request_phase phase_headers state buf req policy = request_headers state buf req policy
request_phase phase_start_line state buf req policy =
    let r = parse_request_line state.cursor (drop state.cursor buf) req policy in
    request_line_done r.status state buf r policy

pub response_phase :
    ParserPhase → ParserState → Bytes → Response → Policy → Option (Parsed Response)
unfolding status_line_done
response_phase phase_error state buf resp policy = some (returned error state resp)
response_phase phase_done state buf resp policy =
    some (record { status = ok; state = state; out = resp; bytes_consumed = state.cursor })
response_phase phase_headers state buf resp policy = response_headers state buf resp policy
response_phase phase_start_line state buf resp policy =
    let r = parse_status_line state.cursor (drop state.cursor buf) resp policy in
    status_line_done r.status state buf r policy

-- The first line of the entry points: another mode is refused with nothing written.
module _ {A : Type 0} where
  abbrev pub refused : ParserState → A → ℕ → Option (Parsed A)
  refused state out bytes_consumed =
      some (record { status = error; state = state; out = out; bytes_consumed = bytes_consumed })

unfoldable pub parse_request_stateful :
    ParserState → Bytes → Request → Option Policy → ℕ → Option (Parsed Request)
unfolding request_phase resolve_policy
parse_request_stateful state buf req policy bytes_consumed = elim state.mode [
  | mode_request ↦ request_phase state.phase state buf req (resolve_policy policy)
  | _ ↦ refused state req bytes_consumed
]

unfoldable pub parse_response_stateful :
    ParserState → Bytes → Response → Option Policy → ℕ → Option (Parsed Response)
unfolding response_phase resolve_policy
parse_response_stateful state buf resp policy bytes_consumed = elim state.mode [
  | mode_response ↦ response_phase state.phase state buf resp (resolve_policy policy)
  | _ ↦ refused state resp bytes_consumed
]

pub header_array_phase :
    ParserPhase → ParserState → Bytes → HeaderArray → ℕ → Policy → Option (Parsed HeaderArray)
unfolding headers_phase
header_array_phase phase_error state buf array max_headers policy =
    some (returned error state array)
header_array_phase phase_done state buf array max_headers policy =
    some (record { status = ok; state = state; out = array; bytes_consumed = state.cursor })
header_array_phase phase_start_line state buf array max_headers policy =
    some (returned error (parser_state_error state) array)
header_array_phase phase_headers state buf array max_headers policy =
    headers_phase state buf array (λ a. a) max_headers policy

unfoldable pub parse_headers_stateful :
    ParserState → Bytes → HeaderArray → ℕ → Option Policy → ℕ → Option (Parsed HeaderArray)
unfolding header_array_phase resolve_policy
parse_headers_stateful state buf array max_headers policy bytes_consumed = elim state.mode [
  | mode_headers ↦
      header_array_phase state.phase state buf array max_headers (resolve_policy policy)
  | _ ↦ refused state array bytes_consumed
]

unfoldable pub parse_request : Bytes → Option Policy → ℕ → Option (Parsed Request)
unfolding parse_request_stateful parser_state_init
parse_request buf policy bytes_consumed =
    parse_request_stateful (parser_state_init mode_request) buf zero_request policy bytes_consumed

unfoldable pub parse_response : Bytes → Option Policy → ℕ → Option (Parsed Response)
unfolding parse_response_stateful parser_state_init
parse_response buf policy bytes_consumed =
    parse_response_stateful (parser_state_init mode_response) buf zero_response policy
      bytes_consumed

-- `*num_headers` says how many headers fit, and is set to 0.
unfoldable pub parse_headers : Bytes → HeaderArray → Option Policy → ℕ → Option (Parsed HeaderArray)
unfolding parse_headers_stateful parser_state_init
parse_headers buf array policy bytes_consumed =
    parse_headers_stateful (parser_state_init mode_headers) buf (record array { num_headers = 0 })
      array.num_headers policy bytes_consumed
