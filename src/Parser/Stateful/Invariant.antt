-- ===== src/Parser/Stateful/Invariant.antt =====
-- The state of `ihtp_parse_request_stateful` of src/ihtp_parser.c between calls: the cursor and
-- what the request points to.
pub mod EntryPoint
use iohttpparser.Base.{
  ℕ, ◌+◌, ◌≤◌, ◌≡◌, ◌≢◌, refl, ap, sym, ◌∙◌, subst, arith, Option, some, Bytes, length, take, drop,
  length-drop, some-≡, Option-cases, inl, inr,
}
use iohttpparser.Parser.Headers.Bounds.{Told, parse_header_block_placed}
use iohttpparser.Parser.Headers.Resume.{parse_header_block_returns}
use iohttpparser.Parser.Headers.Resume.Step.{completes, fails, Ends, for_good, for_more}
use iohttpparser.Parser.Headers.{BlockReturn}
use iohttpparser.Parser.Spans.{AllInside}
use iohttpparser.Parser.StartLine.Bounds.{
  StartLineInside, LineTold, accepted, waits, rejected, rejected_long, parse_request_line_told,
}
use iohttpparser.Parser.StartLine.{RequestLine}
use iohttpparser.Parser.Stateful.{
  HeaderArray, Parsed, returned, parser_state_error, resolve_policy, store_request, block_status,
  after_block, request_headers, request_line_done, request_phase, parse_request_stateful,
}
use iohttpparser.Parser.Stateful.HeadersPhase.{headers_phase_of}
use iohttpparser.Types.{
  Status, ok, incomplete, error, error_too_long, error_too_many_headers, ParserMode, mode_request,
  mode_response, mode_headers, ParserPhase, phase_start_line, phase_headers, phase_done,
  phase_error, ParserState, Request, Policy, max_headers_limit,
}

-- Everything that a request points to lies before `limit`.
pub record RequestInside (limit : ℕ) (req : Request) : Type 0 where
  pub start_line : StartLineInside limit req
  pub headers : AllInside limit (take req.num_headers req.headers)

StartLineInside-le :
    {m n : ℕ} {req : Request} → m ≤ n → StartLineInside m req → StartLineInside n req
StartLineInside-le le i = record {
  method_pos = i.method_pos;
  method_end = i.method_end;
  path_pos = i.path_pos;
  path_end = omega (arith, i.path_end);
}

StartLineInside-store :
    {n : ℕ} {req : Request} {array : HeaderArray}
    → StartLineInside n req
    → StartLineInside n (store_request req array)
StartLineInside-store i = record {
  method_pos = i.method_pos;
  method_end = i.method_end;
  path_pos = i.path_pos;
  path_end = i.path_end;
}

-- The state and the request between two calls on a buffer of `len` bytes. Behind a failure only
-- the cursor counts: nothing reads the request's spans any more.
unfoldable pub IsValid : ℕ → ParserPhase → ℕ → Request → Type 0
IsValid len phase_start_line cursor req = (cursor ≤ len) × (req.num_headers ≡ 0)
IsValid len phase_headers cursor req = (cursor ≤ len) × RequestInside cursor req
IsValid len phase_done cursor req = (cursor ≤ len) × RequestInside cursor req
IsValid len phase_error cursor req = cursor ≤ len

-- What a call leaves: a valid state, and on `OK` the phase is done, and the bytes consumed are the
-- cursor.
pub record Leaves (len : ℕ) (p : Parsed Request) : Type 0 where
  pub valid : IsValid len p.state.phase p.state.cursor p.out
  pub done : p.status ≡ ok → (p.state.phase ≡ phase_done) × (p.bytes_consumed ≡ p.state.cursor)

module _ (len : ℕ) where
  failing :
      (status : Status) (state : ParserState) (out : Request)
      → status ≢ ok
      → state.cursor ≤ len
      → Leaves len (returned status (parser_state_error state) out)
  unfolding IsValid
  failing status state out no_ok within = record { valid = within; done = λ h. absurd (no_ok h) }

  -- Behind a block of which the count and the end are told.
  module _ (state : ParserState) (out : Request) (in_phase : state.phase ≡ phase_headers)
      (within : state.cursor ≤ len) (inside : RequestInside state.cursor out) where
    block_status-Leaves : (status : Status) → Leaves len (block_status status state out)
    unfolding block_status IsValid
    block_status-Leaves ok = record { valid = (within, inside); done = λ h. (refl, refl) }
    block_status-Leaves incomplete = record {
      valid = rw in_phase (within, inside);
      done = λ h. absurd (cc);
    }
    block_status-Leaves error = failing error state out (cc) within
    block_status-Leaves error_too_long = failing error_too_long state out (cc) within
    block_status-Leaves error_too_many_headers =
        failing error_too_many_headers state out (cc) within

  block_status_failing :
      (status : Status) (state : ParserState) (out : Request)
      → status ≢ ok
      → status ≢ incomplete
      → state.cursor ≤ len
      → Leaves len (block_status status state out)
  unfolding block_status
  block_status_failing ok state out no_ok no_more within = absurd (no_ok refl)
  block_status_failing incomplete state out no_ok no_more within = absurd (no_more refl)
  block_status_failing error state out no_ok no_more within = failing error state out no_ok within
  block_status_failing error_too_long state out no_ok no_more within =
      failing error_too_long state out no_ok within
  block_status_failing error_too_many_headers state out no_ok no_more within =
      failing error_too_many_headers state out no_ok within

module _ (state : ParserState) (buf : Bytes) (req : Request)
    (in_phase : state.phase ≡ phase_headers) (within : state.cursor ≤ length buf)
    (inside : RequestInside state.cursor req) where
  after-Told :
      (r : BlockReturn) (n block_end : ℕ)
      → Told state.cursor (length (drop state.cursor buf)) r
      → r.num_headers ≡ some n
      → r.block_end ≡ some block_end
      → Leaves (length buf) (after_block state (store_request req) req.num_headers r)
  unfolding after_block
  after-Told r n block_end told count place =
      rw (count, place)
        (block_status-Leaves (length buf) (record state { cursor = state.cursor + block_end })
          (store_request req (record { headers = r.headers; num_headers = n })) in_phase
          (omega (arith, told.1 block_end place, length-drop state.cursor buf))
          (record {
            start_line = StartLineInside-store (StartLineInside-le (omega arith) inside.start_line);
            headers = told.0 n block_end count place;
          })
          r.status)

  after_block-Leaves :
      (r : BlockReturn)
      → Told state.cursor (length (drop state.cursor buf)) r
      → Ends r
      → Leaves (length buf) (after_block state (store_request req) req.num_headers r)
  unfolding after_block
  after_block-Leaves r told (for_more n block_end status count place) =
      after-Told r n block_end told count place
  after_block-Leaves r told (for_good (completes n block_end status count place)) =
      after-Told r n block_end told count place
  after_block-Leaves r told (for_good (fails no_ok no_more)) = elim (Option-cases r.block_end) [
    | inl none ↦
        rw none (block_status_failing (length buf) r.status _ _ no_ok no_more (omega arith))
    | inr (block_end, place) ↦ rw place (
        block_status_failing (length buf) r.status _ _ no_ok no_more
          (omega (arith, told.1 block_end place, length-drop state.cursor buf)))
  ]

  request_headers-Leaves :
      (policy : Policy) (p : Parsed Request)
      → request_headers state buf req policy ≡ some p
      → Leaves (length buf) p
  unfolding request_headers
  request_headers-Leaves policy p call =
      let array : HeaderArray = record { headers = req.headers; num_headers = req.num_headers } in
      let (r, e, ends) =
        parse_header_block_returns state.cursor (drop state.cursor buf) req.headers req.num_headers
          max_headers_limit policy in
      let told =
        parse_header_block_placed state.cursor (drop state.cursor buf) req.headers req.num_headers
          max_headers_limit policy r inside.headers e in
      let same : after_block state (store_request req) req.num_headers r ≡ p = some-≡ (
        sym (headers_phase_of state buf array (store_request req) max_headers_limit policy r e)
        ∙ call) in
      subst (Leaves (length buf)) same (after_block-Leaves r told ends)
