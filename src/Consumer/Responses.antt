-- ===== src/Consumer/Responses.antt =====
-- The scenarios of bench/bench_extended_contract.c that read responses. `wire` is the text of a C
-- string of `len` bytes, none of them NUL.
use iohttpparser.Base.{
  ℕ, ◌+◌, leb, ◌%◌, ◌^◌, Bool, not, ◌&&◌, some, Bytes, ◌==◌, length, drop, take,
}
use iohttpparser.Body.Fixed.{fixed_decoder_init, decode_fixed}
use iohttpparser.Consumer.{
  Outcome, success, ◌>>=◌, ◌>>◌, guard, is_ok, parsed, applied, strstr, found, blank_line, needs,
}
use iohttpparser.Parser.Stateful.{
  Parsed, parse_response_stateful, parser_state_init, parser_state_reset,
}
use iohttpparser.Scanner.{strlen}
use iohttpparser.Semantics.Response.{response_apply_semantics, is_body_fixed}
use iohttpparser.Types.{ParserState, mode_response, Response, zero_response, policy_iohttp}

-- A call on a zeroed response that has to return `IHTP_OK`.
abbrev pub response_from : ParserState → Bytes → Outcome (Parsed Response)
response_from state wire =
    parsed (parse_response_stateful state wire zero_response (some policy_iohttp) 0)

abbrev pub first_response : Bytes → Outcome (Parsed Response)
first_response wire = response_from (parser_state_init mode_response) wire

unfoldable pub scenario_response_upgrade_parse_only : Bytes → Outcome ℕ
scenario_response_upgrade_parse_only wire = do
  headers_end ← found (strstr wire blank_line)
  p ← first_response wire
  guard (p.bytes_consumed == headers_end + 4)
  success p.bytes_consumed

module _ (is_token : Bytes → Bool) where
  abbrev pub meaning : Bytes → Response → Outcome Response
  meaning wire resp = applied (response_apply_semantics is_token wire resp (some policy_iohttp))

  unfoldable pub scenario_response_upgrade_parse_semantics : Bytes → Outcome ℕ
  scenario_response_upgrade_parse_semantics wire = do
    p ← first_response wire
    resp ← meaning wire p.out
    guard resp.protocol_upgrade
    success p.bytes_consumed

  unfoldable pub scenario_response_fixed_parse_semantics_body : Bytes → Outcome ℕ
  scenario_response_fixed_parse_semantics_body wire = do
    p ← first_response wire
    resp ← meaning wire p.out
    guard (is_body_fixed resp.body_mode && not (resp.content_length == 0))
    guard (is_ok (decode_fixed (fixed_decoder_init resp.content_length) resp.content_length).1)
    success ((p.bytes_consumed + resp.content_length) % 2 ^ 64)

  -- `next` points behind the body, which the code takes to lie in the wire.
  unfoldable pub scenario_consumer_iohttp_fixed_response : Bytes → Outcome ℕ
  scenario_consumer_iohttp_fixed_response wire = do
    p ← first_response wire
    resp ← meaning wire p.out
    guard (is_body_fixed resp.body_mode && not (resp.content_length == 0))
    guard (is_ok (decode_fixed (fixed_decoder_init resp.content_length) resp.content_length).1)
    needs (leb (p.bytes_consumed + resp.content_length) (length wire))
    let next = drop (p.bytes_consumed + resp.content_length) wire
    q ← response_from (parser_state_reset p.state) (take (strlen next) next)
    resp' ← meaning next q.out
    success ((length wire + strlen next) % 2 ^ 64)
