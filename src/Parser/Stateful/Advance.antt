-- ===== src/Parser/Stateful/Advance.antt =====
-- How the calls of src/ihtp_parser.c change the parser state.
pub mod EntryPoints
use iohttpparser.Base.{
  ℕ, ◌+◌, ◌≤◌, ◌≡◌, ◌≢◌, refl, sym, ◌∙◌, subst, arith, Option, some, [], Bytes, drop, some-≡,
}
use iohttpparser.Parser.Headers.Resume.{parse_header_block_returns}
use iohttpparser.Parser.StartLine.{RequestLine, StatusLine}
use iohttpparser.Parser.Stateful.{
  HeaderArray, Parsed, stay, returned, resolve_policy, store_request, store_response, block_status,
  after_block, headers_phase, request_headers, response_headers, request_line_done,
  status_line_done, request_phase, response_phase, header_array_phase, parse_request_stateful,
  parse_response_stateful, parse_headers_stateful,
}
use iohttpparser.Parser.Stateful.HeadersPhase.{headers_phase_of}
use iohttpparser.Parser.Stateful.Totality.{entry_points-Returned}
use iohttpparser.Types.{
  Status, ok, incomplete, error, error_too_long, error_too_many_headers, ParserMode, mode_request,
  mode_response, mode_headers, ParserPhase, phase_start_line, phase_headers, phase_done,
  phase_error, ParserState, Request, Response, zero_response, Policy, max_headers_limit,
}

-- The moves of the state machine. Done and error are left by a reset only.
pub data PhaseStep : ParserPhase → ParserPhase → Type 0 where
  stays : {phase : ParserPhase} → PhaseStep phase phase
  reads_start_line : PhaseStep phase_start_line phase_headers
  completes_both : PhaseStep phase_start_line phase_done
  completes : PhaseStep phase_headers phase_done
  start_line_fails : PhaseStep phase_start_line phase_error
  headers_fail : PhaseStep phase_headers phase_error

-- What a call does to the state, whatever the output `A` is: it keeps the mode, the cursor does
-- not go back, the phase makes a move of the state machine, and `OK` says that it is done.
pub record Moves {A : Type 0} (state : ParserState) (p : Parsed A) : Type 0 where
  pub same_mode : p.state.mode ≡ state.mode
  pub forward : state.cursor ≤ p.state.cursor
  pub step : PhaseStep state.phase p.state.phase
  pub done : p.status ≡ ok → p.state.phase ≡ phase_done

abbrev at : ParserMode → ParserPhase → ℕ → ParserState
at mode phase cursor = record { mode = mode; phase = phase; cursor = cursor }

-- The start line may have been read in the same call.
from_start :
    {A : Type 0} {mode : ParserMode} {cursor : ℕ} {p : Parsed A} (n : ℕ)
    → Moves (at mode phase_headers (cursor + n)) p
    → Moves (at mode phase_start_line cursor) p
from_start {p = p} n m = record {
  same_mode = m.same_mode;
  forward = omega (arith, m.forward);
  step = earlier m.step refl;
  done = m.done;
}
  where
    earlier :
        {from to : ParserPhase}
        → PhaseStep from to
        → from ≡ phase_headers
        → PhaseStep phase_start_line to
    earlier stays e = rw e reads_start_line
    earlier reads_start_line e = absurd (cc)
    earlier completes_both e = absurd (cc)
    earlier completes e = completes_both
    earlier start_line_fails e = absurd (cc)
    earlier headers_fail e = start_line_fails

module _ {A : Type 0} where
  block_status-Moves :
      (mode : ParserMode) (cursor n : ℕ) (status : Status) (out : A)
      → Moves
          (at mode phase_headers cursor)
          (block_status status (at mode phase_headers (cursor + n)) out)
  unfolding block_status
  block_status-Moves mode cursor n ok out = record {
    same_mode = refl;
    forward = omega arith;
    step = completes;
    done = λ h. refl;
  }
  block_status-Moves mode cursor n incomplete out = record {
    same_mode = refl;
    forward = omega arith;
    step = stays;
    done = λ h. absurd (cc);
  }
  block_status-Moves mode cursor n error out = record {
    same_mode = refl;
    forward = omega arith;
    step = headers_fail;
    done = λ h. absurd (cc);
  }
  block_status-Moves mode cursor n error_too_long out = record {
    same_mode = refl;
    forward = omega arith;
    step = headers_fail;
    done = λ h. absurd (cc);
  }
  block_status-Moves mode cursor n error_too_many_headers out = record {
    same_mode = refl;
    forward = omega arith;
    step = headers_fail;
    done = λ h. absurd (cc);
  }

  headers_phase-Moves :
      (mode : ParserMode) (cursor : ℕ) (buf : Bytes) (array : HeaderArray) (store : HeaderArray → A)
      (max_headers : ℕ) (policy : Policy) (p : Parsed A)
      → headers_phase (at mode phase_headers cursor) buf array store max_headers policy ≡ some p
      → Moves (at mode phase_headers cursor) p
  unfolding after_block
  headers_phase-Moves mode cursor buf array store max_headers policy p call =
      let state = at mode phase_headers cursor in
      let (r, e, _) =
        parse_header_block_returns cursor (drop cursor buf) array.headers array.num_headers
          max_headers policy in
      subst (Moves state)
        (some-≡ (sym (headers_phase_of state buf array store max_headers policy r e) ∙ call))
        (block_status-Moves mode cursor (stay r.block_end 0) r.status _)

  -- A failed start line.
  start_line_failed :
      (mode : ParserMode) (cursor : ℕ) (status : Status) (out : A)
      → status ≢ ok
      → Moves (at mode phase_start_line cursor) (returned status (at mode phase_error cursor) out)
  start_line_failed mode cursor status out no_ok = record {
    same_mode = refl;
    forward = omega arith;
    step = start_line_fails;
    done = λ h. absurd (no_ok h);
  }

  unchanged :
      (state : ParserState) (status : Status) (out : A) (consumed : ℕ)
      → (status ≡ ok → state.phase ≡ phase_done)
      → Moves state
          (record { status = status; state = state; out = out; bytes_consumed = consumed })
  unchanged state status out consumed done = record {
    same_mode = refl;
    forward = omega arith;
    step = stays;
    done = done;
  }
