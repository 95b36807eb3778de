-- ===== src/Consumer/Requests.antt =====
-- The scenarios of bench/bench_extended_contract.c that read requests. `wire` is the text of a C
-- string of `len` bytes, none of them NUL; the numbers written to `*work_bytes_out` are a `size_t`.
use iohttpparser.Base.{
  ℕ, ◌+◌, ◌-◌, ◌*◌, ◌%◌, ◌^◌, Bool, true, false, some, List, [], ◌∷◌, ◌++◌, Bytes, ltb, ◌==◌,
  if◌then◌else◌, length, get_or, take, drop,
}
use iohttpparser.Consumer.{
  Outcome, success, ◌>>=◌, ◌>>◌, guard, is_error, parsed, applied, decode_tail, strstr, found,
  blank_line, terminated_string,
}
use iohttpparser.Parser.Stateful.{
  Parsed, parse_request_stateful, parser_state_init, parser_state_reset,
}
use iohttpparser.Scanner.{strlen}
use iohttpparser.Semantics.Request.{request_apply_semantics, is_body_chunked}
use iohttpparser.Types.{
  Method, connect, ParserState, mode_request, Header, Request, zero_request, Policy, policy_strict,
  policy_iohttp, policy_ioguard,
}

-- A call on a zeroed request that has to return `IHTP_OK`.
abbrev pub request_from : ParserState → Bytes → Policy → Outcome (Parsed Request)
request_from state wire policy =
    parsed (parse_request_stateful state wire zero_request (some policy) 0)

-- The call with which each scenario starts.
abbrev pub first_request : Bytes → Policy → Outcome (Parsed Request)
first_request wire policy = request_from (parser_state_init mode_request) wire policy

abbrev pub is_connect : Method → Bool
is_connect connect = true
is_connect _ = false

unfoldable pub scenario_stateful_reuse_request : Bytes → Outcome ℕ
scenario_stateful_reuse_request wire = do
  p ← first_request wire policy_strict
  guard (p.bytes_consumed == length wire)
  q ← request_from (parser_state_reset p.state) wire policy_strict
  guard (q.bytes_consumed == length wire)
  success (length wire * 2 % 2 ^ 64)

unfoldable pub scenario_request_chunked_parse_only : Bytes → Outcome ℕ
scenario_request_chunked_parse_only wire = do
  headers_end ← found (strstr wire blank_line)
  p ← first_request wire policy_strict
  guard (p.bytes_consumed == headers_end + 4)
  success p.bytes_consumed

unfoldable pub scenario_zero_copy_request_parse : Bytes → Outcome ℕ
scenario_zero_copy_request_parse wire = do
  p ← first_request wire policy_strict
  success p.bytes_consumed

-- What the loop adds to `local_sink` for each header.
pub observe_headers : Bytes → ℕ → List Header → ℕ
observe_headers wire sink [] = sink
observe_headers wire sink (h ∷ hs) =
    let first = if ltb 0 h.name_len then get_or wire h.name 0 else 0 in
    let last = if ltb 0 h.value_len then get_or wire (h.value + (h.value_len - 1)) 0 else 0 in
    observe_headers wire ((sink + (h.name_len + h.value_len) + first + last) % 2 ^ 64) hs

-- The first and the last byte of a span.
abbrev pub observe_span : Bytes → ℕ → ℕ → ℕ
observe_span wire start len =
    if ltb 0 len then get_or wire start 0 + get_or wire (start + (len - 1)) 0 else 0

pub observe_request : Bytes → Request → ℕ
observe_request wire req =
    let sizes = req.method_len + req.path_len + req.num_headers in
    let spans =
      observe_span wire req.method_str req.method_len + observe_span wire req.path req.path_len in
    observe_headers wire ((sizes + spans) % 2 ^ 64) (take req.num_headers req.headers)

-- `*work_bytes_out` and `g_sink`.
unfoldable pub scenario_zero_copy_request_observe : ℕ → Bytes → Outcome (ℕ × ℕ)
scenario_zero_copy_request_observe g_sink wire = do
  p ← first_request wire policy_strict
  success (p.bytes_consumed, (g_sink + observe_request wire p.out) % 2 ^ 64)

-- The scenarios that also apply the semantics; `is_token` is the scanner's.
module _ (is_token : Bytes → Bool) where
  abbrev pub meaning : Bytes → Request → Policy → Outcome Request
  meaning wire req policy = applied (request_apply_semantics is_token wire req (some policy))

  -- The three scenarios of the named policies, which all are the strict one.
  unfoldable pub scenario_policy_strict_request_semantics : Bytes → Outcome ℕ
  scenario_policy_strict_request_semantics wire = do
    p ← first_request wire policy_strict
    req ← meaning wire p.out policy_strict
    success p.bytes_consumed

  unfoldable pub scenario_policy_iohttp_request_semantics : Bytes → Outcome ℕ
  scenario_policy_iohttp_request_semantics wire = do
    p ← first_request wire policy_iohttp
    req ← meaning wire p.out policy_iohttp
    success p.bytes_consumed

  unfoldable pub scenario_policy_ioguard_request_semantics : Bytes → Outcome ℕ
  scenario_policy_ioguard_request_semantics wire = do
    p ← first_request wire policy_ioguard
    req ← meaning wire p.out policy_ioguard
    success p.bytes_consumed

  unfoldable pub scenario_request_chunked_parse_semantics : Bytes → Outcome ℕ
  scenario_request_chunked_parse_semantics wire = do
    p ← first_request wire policy_iohttp
    req ← meaning wire p.out policy_iohttp
    guard (is_body_chunked req.body_mode)
    success p.bytes_consumed

  unfoldable pub scenario_request_chunked_parse_semantics_body : Bytes → Outcome ℕ
  scenario_request_chunked_parse_semantics_body wire = do
    p ← first_request wire policy_iohttp
    req ← meaning wire p.out policy_iohttp
    guard (is_body_chunked req.body_mode)
    b ← decode_tail 256 true wire p.bytes_consumed
    success ((p.bytes_consumed + b.body_len + b.trailing) % 2 ^ 64)

  unfoldable pub scenario_consumer_iohttp_pipeline : Bytes → Outcome ℕ
  scenario_consumer_iohttp_pipeline wire = do
    p ← first_request wire policy_iohttp
    req ← meaning wire p.out policy_iohttp
    b ← decode_tail 256 true wire p.bytes_consumed
    let next = take b.trailing (drop b.body_len b.buf)
    q ← request_from (parser_state_reset p.state) next policy_iohttp
    req' ← meaning next q.out policy_iohttp
    success ((length wire + b.trailing) % 2 ^ 64)

  -- `stack` is what the 320 bytes of the array `tail` hold before the copy: nothing initialises them.
  -- `strstr` and `strlen` need a NUL in the array, behind the decoded body.
  unfoldable pub scenario_consumer_iohttp_expect_trailers : Bytes → Bytes → Outcome ℕ
  scenario_consumer_iohttp_expect_trailers stack wire = do
    p ← first_request wire policy_iohttp
    req ← meaning wire p.out policy_iohttp
    b ← decode_tail 320 false wire p.bytes_consumed
    let tail = take 320 (b.buf ++ drop (length b.buf) stack)
    trailer_and_next ← terminated_string (drop b.body_len tail)
    trailer_end ← found (strstr trailer_and_next blank_line)
    let next = drop (trailer_end + 4) trailer_and_next
    q ← request_from (parser_state_reset p.state) (take (strlen next) next) policy_iohttp
    req' ← meaning next q.out policy_iohttp
    success ((length wire + strlen next) % 2 ^ 64)

  unfoldable pub scenario_consumer_ioguard_connect : Bytes → Outcome ℕ
  scenario_consumer_ioguard_connect wire = do
    p ← first_request wire policy_ioguard
    req ← meaning wire p.out policy_ioguard
    guard (is_connect req.method)
    success p.bytes_consumed

  unfoldable pub scenario_consumer_ioguard_reject_te_cl : Bytes → Outcome ℕ
  scenario_consumer_ioguard_reject_te_cl wire = do
    p ← first_request wire policy_ioguard
    guard (is_error (request_apply_semantics is_token wire p.out (some policy_ioguard)).0)
    success p.bytes_consumed
