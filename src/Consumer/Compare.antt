-- ===== src/Consumer/Compare.antt =====
-- The entry points of bench/bench_throughput_compare.c that call this library.
use iohttpparser.Base.{ℕ, some, Bytes, ◌==◌, length}
use iohttpparser.Consumer.{Outcome, success, ◌>>=◌, ◌>>◌, guard, parsed}
use iohttpparser.Parser.Stateful.{
  Parsed, parse_request, parse_response, parse_request_stateful, parse_response_stateful,
  parser_state_init,
}
use iohttpparser.Types.{
  mode_request, mode_response, zero_request, zero_response, Policy, policy_strict, policy_lenient,
}

pub data ScenarioKind : Type 0 where
  scenario_request scenario_response : ScenarioKind

-- `*consumed_out`, when the whole buffer was consumed.
unfoldable pub whole : {A : Type 0} → Bytes → Outcome (Parsed A) → Outcome ℕ
whole buf call = do p ← call; guard (p.bytes_consumed == length buf); success p.bytes_consumed

unfoldable pub parse_ihtp_with_policy : Bytes → ScenarioKind → Policy → Outcome ℕ
unfolding whole
parse_ihtp_with_policy buf scenario_request policy =
    whole buf (parsed (parse_request buf (some policy) 0))
parse_ihtp_with_policy buf scenario_response policy =
    whole buf (parsed (parse_response buf (some policy) 0))

unfoldable pub parse_ihtp_strict : Bytes → ScenarioKind → Outcome ℕ
parse_ihtp_strict buf kind = parse_ihtp_with_policy buf kind policy_strict

unfoldable pub parse_ihtp_lenient : Bytes → ScenarioKind → Outcome ℕ
parse_ihtp_lenient buf kind = parse_ihtp_with_policy buf kind policy_lenient

unfoldable pub parse_ihtp_stateful_with_policy : Bytes → ScenarioKind → Policy → Outcome ℕ
unfolding whole
parse_ihtp_stateful_with_policy buf scenario_request policy = whole buf (
    parsed
      (parse_request_stateful (parser_state_init mode_request) buf zero_request (some policy) 0))
parse_ihtp_stateful_with_policy buf scenario_response policy = whole buf (
    parsed
      (parse_response_stateful (parser_state_init mode_response) buf zero_response (some policy) 0))

unfoldable pub parse_ihtp_stateful_strict : Bytes → ScenarioKind → Outcome ℕ
parse_ihtp_stateful_strict buf kind = parse_ihtp_stateful_with_policy buf kind policy_strict

unfoldable pub parse_ihtp_stateful_lenient : Bytes → ScenarioKind → Outcome ℕ
parse_ihtp_stateful_lenient buf kind = parse_ihtp_stateful_with_policy buf kind policy_lenient
