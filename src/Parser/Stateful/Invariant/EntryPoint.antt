-- ===== src/Parser/Stateful/Invariant/EntryPoint.antt =====
-- `ihtp_parse_request_stateful` of src/ihtp_parser.c in a valid state.
use iohttpparser.Base.{
  ℕ, ◌+◌, ◌≤◌, ◌≡◌, refl, ap, sym, ◌∙◌, subst, arith, Option, some, Bytes, length, drop,
  length-drop, some-≡,
}
use iohttpparser.Parser.StartLine.Bounds.{
  LineTold, accepted, waits, rejected, rejected_long, parse_request_line_told,
}
use iohttpparser.Parser.StartLine.{RequestLine}
use iohttpparser.Parser.Stateful.{
  Parsed, returned, resolve_policy, request_line_done, request_phase, parse_request_stateful,
}
use iohttpparser.Types.{
  Status, ok, incomplete, error, error_too_long, ParserMode, mode_request, mode_response,
  mode_headers, ParserPhase, phase_start_line, phase_headers, phase_done, phase_error, ParserState,
  Request, Policy,
}
use iohttpparser.Parser.Stateful.Invariant.{IsValid, Leaves, failing, request_headers-Leaves}

module _ (policy : Policy) (buf : Bytes) where
  abbrev at : ParserMode → ParserPhase → ℕ → ParserState
  at mode phase cursor = record { mode = mode; phase = phase; cursor = cursor }

  -- Behind an accepted request line the headers are as they were.
  request_line_done-Leaves :
      (mode : ParserMode) (cursor : ℕ) (req : Request) (r : RequestLine) (p : Parsed Request)
      → cursor ≤ length buf
      → req.num_headers ≡ 0
      → LineTold cursor (length (drop cursor buf)) req r
      → request_line_done r.status (at mode phase_start_line cursor) buf r policy ≡ some p
      → Leaves (length buf) p
  unfolding request_line_done IsValid
  request_line_done-Leaves mode cursor req r p within none_yet told call = by_line told
    where
      with_status :
          (status : Status)
          → r.status ≡ status
          → request_line_done status (at mode phase_start_line cursor) buf r policy ≡ some p
      with_status status e =
          sym (ap (λ s. request_line_done s (at mode phase_start_line cursor) buf r policy) e)
          ∙ call

      by_line : LineTold cursor (length (drop cursor buf)) req r → Leaves (length buf) p
      by_line (accepted status fits _ inside headers count) =
          request_headers-Leaves (at mode phase_headers (cursor + r.line_end)) buf r.req refl
            (omega (arith, fits, length-drop cursor buf))
            (record { start_line = inside; headers = rw (count, none_yet) tt }) policy p
            (with_status ok status)
      by_line (waits same) =
          let call' =
            sym (
              ap
                (λ (r : RequestLine).
                  request_line_done r.status (at mode phase_start_line cursor) buf r policy)
                same)
            ∙ call in
          let waiting : Leaves (length buf)
              (returned incomplete (at mode phase_start_line cursor) req) =
            record { valid = (within, none_yet); done = λ h. absurd (cc) } in
          subst (Leaves (length buf)) (some-≡ call') waiting
      by_line (rejected status) =
          subst (Leaves (length buf)) (some-≡ (with_status error status))
            (failing (length buf) error (at mode phase_start_line cursor) r.req (cc) within)
      by_line (rejected_long status) =
          subst (Leaves (length buf)) (some-≡ (with_status error_too_long status)) (
            failing (length buf) error_too_long (at mode phase_start_line cursor) r.req (cc) within)

  request_phase-Leaves :
      (mode : ParserMode) (phase : ParserPhase) (cursor : ℕ) (req : Request) (p : Parsed Request)
      → IsValid (length buf) phase cursor req
      → request_phase phase (at mode phase cursor) buf req policy ≡ some p
      → Leaves (length buf) p
  unfolding request_phase IsValid
  request_phase-Leaves mode phase_start_line cursor req p valid call =
      request_line_done-Leaves mode cursor req _ p valid.0 valid.1
        (parse_request_line_told cursor (drop cursor buf) req policy) call
  request_phase-Leaves mode phase_headers cursor req p valid call =
      request_headers-Leaves (at mode phase_headers cursor) buf req refl valid.0 valid.1 policy p
        call
  request_phase-Leaves mode phase_done cursor req p valid call =
      subst (Leaves (length buf)) (some-≡ call) (record { valid = valid; done = λ h. (refl, refl) })
  request_phase-Leaves mode phase_error cursor req p valid call =
      subst (Leaves (length buf)) (some-≡ call) (record { valid = valid; done = λ h. absurd (cc) })

-- The invariant of the parser: a call in a valid state leaves a valid state, on a buffer of any
-- length, with any policy and in any mode. In a valid state the cursor lies in the buffer, whatever
-- the phase. At the start line a valid state also has no headers counted yet (`num_headers` is
-- zero). In the header phase and when done, all that the request points to lies before the cursor:
-- the method, a byte at least, the target, and headers of a name that is not empty, a byte at
-- least, and a value. In the error phase nothing is said of what the request points to. On `OK`
-- the parser is done and the bytes consumed are the cursor.
pub parse_request_stateful-IsValid :
    (state : ParserState) (buf : Bytes) (req : Request) (policy : Option Policy) (consumed : ℕ)
    (p : Parsed Request)
    → IsValid (length buf) state.phase state.cursor req
    → parse_request_stateful state buf req policy consumed ≡ some p
    → Leaves (length buf) p
unfolding parse_request_stateful
parse_request_stateful-IsValid state buf req policy consumed p valid call =
    by_mode state.mode state.phase state.cursor valid call
  where
    by_mode :
        (mode : ParserMode) (phase : ParserPhase) (cursor : ℕ)
        → IsValid (length buf) phase cursor req
        → parse_request_stateful
            (record { mode = mode; phase = phase; cursor = cursor })
            buf
            req
            policy
            consumed
          ≡ some p
        → Leaves (length buf) p
    by_mode mode_request phase cursor valid call =
        request_phase-Leaves (resolve_policy policy) buf mode_request phase cursor req p valid call
    by_mode mode_response phase cursor valid call =
        subst (Leaves (length buf)) (some-≡ call)
          (record { valid = valid; done = λ h. absurd (cc) })
    by_mode mode_headers phase cursor valid call =
        subst (Leaves (length buf)) (some-≡ call)
          (record { valid = valid; done = λ h. absurd (cc) })
