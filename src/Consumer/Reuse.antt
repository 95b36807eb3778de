-- ===== src/Consumer/Reuse.antt =====
-- The scenario of bench/bench_extended_contract.c that resets a parser and uses it again.
use iohttpparser.Base.{
  ◌*◌, ◌%◌, ◌^◌, ◌≡◌, refl, ap, Option, some, Bytes, length, ◌==◌, Bool-cases, inl, inr,
}
use iohttpparser.Consumer.{success, ◌>>=◌, ◌>>◌, guard, is_ok}
use iohttpparser.Consumer.Requests.{first_request, scenario_stateful_reuse_request}
use iohttpparser.Parser.Stateful.{
  Parsed, first_phase, parser_state_init, parser_state_reset, parse_request_stateful,
}
use iohttpparser.Parser.Stateful.Advance.EntryPoints.{parse_request_stateful_mode}
use iohttpparser.Parser.Stateful.Totality.{request_returns}
use iohttpparser.Types.{ParserMode, mode_request, Request, zero_request, Policy, policy_strict}

-- A reset undoes what a call did to the state of a fresh parser.
pub reset_after_call :
    (wire : Bytes) (policy : Option Policy) (p : Parsed Request)
    → parse_request_stateful (parser_state_init mode_request) wire zero_request policy 0 ≡ some p
    → parser_state_reset p.state ≡ parser_state_init mode_request
unfolding parser_state_reset parser_state_init
reset_after_call wire policy p call =
    ap (λ (mode : ParserMode). record { mode = mode; phase = first_phase mode; cursor = 0 })
      (parse_request_stateful_mode (parser_state_init mode_request) wire zero_request policy 0 p
        call)

-- The scenario that uses a parser twice succeeds exactly when one strict parse of the wire does and consumes
-- all of it: the second call, on the reset state, adds no failure.
pub scenario_stateful_reuse_request_lem :
    (wire : Bytes)
    → scenario_stateful_reuse_request wire ≡ do
      p ← first_request wire policy_strict
      guard (p.bytes_consumed == length wire)
      success (length wire * 2 % 2 ^ 64)
unfolding scenario_stateful_reuse_request
scenario_stateful_reuse_request_lem wire =
    let (p, call) =
      request_returns (parser_state_init mode_request) wire zero_request (some policy_strict) 0 in
    let reset = reset_after_call wire (some policy_strict) p call in
    elim (Bool-cases (is_ok p.status)) [
      | inr failed ↦ rw (scenario_stateful_reuse_request, call, failed) refl
      | inl accepted ↦ elim (Bool-cases (p.bytes_consumed == length wire)) [
        | inr more ↦ rw (scenario_stateful_reuse_request, call, accepted, more) refl
        | inl all ↦
            rw (scenario_stateful_reuse_request, call, accepted, all, reset, call, accepted, all)
              refl
      ]
    ]
