-- ===== src/Parser/Stateful/Reach.antt =====
-- The cursor of src/ihtp_parser.c stays in the buffer.
pub mod EntryPoints
use iohttpparser.Base.{
  ℕ, ◌+◌, ◌≤◌, ◌≡◌, refl, ap, sym, ◌∙◌, subst, arith, Option, some, Bytes, length, drop, memchr,
  length-drop, Option-cases, inl, inr, some-≡,
}
use iohttpparser.Parser.Headers.Reach.{parse_header_block_reach}
use iohttpparser.Parser.Headers.Resume.{parse_header_block_returns}
use iohttpparser.Parser.StartLine.Append.{parse_request_line-Done, parse_request_line-none}
use iohttpparser.Parser.StartLine.AppendStatus.{parse_status_line-Done, parse_status_line-none}
use iohttpparser.Parser.StartLine.{RequestLine, StatusLine, parse_request_line, parse_status_line}
use iohttpparser.Parser.Stateful.{
  HeaderArray, Parsed, stay, resolve_policy, store_request, store_response, block_status,
  after_block, headers_phase, request_headers, response_headers, request_line_done,
  status_line_done, request_phase, response_phase, header_array_phase, parse_request_stateful,
  parse_response_stateful, parse_headers_stateful,
}
use iohttpparser.Parser.Stateful.HeadersPhase.{headers_phase_of}
use iohttpparser.Types.{
  Status, ok, incomplete, error, error_too_long, error_too_many_headers, ParserMode, mode_request,
  mode_response, mode_headers, ParserPhase, phase_start_line, phase_headers, phase_done,
  phase_error, ParserState, Request, Response, Policy, max_headers_limit,
}

abbrev at : ParserMode → ParserPhase → ℕ → ParserState
at mode phase cursor = record { mode = mode; phase = phase; cursor = cursor }

module _ {A : Type 0} where
  block_status_cursor :
      (status : Status) (state : ParserState) (out : A)
      → (block_status status state out).state.cursor ≡ state.cursor
  unfolding block_status
  block_status_cursor ok state out = refl
  block_status_cursor incomplete state out = refl
  block_status_cursor error state out = refl
  block_status_cursor error_too_long state out = refl
  block_status_cursor error_too_many_headers state out = refl

  headers_phase_reach :
      (state : ParserState) (buf : Bytes) (array : HeaderArray) (store : HeaderArray → A)
      (max_headers : ℕ) (policy : Policy) (p : Parsed A)
      → state.cursor ≤ length buf
      → headers_phase state buf array store max_headers policy ≡ some p
      → p.state.cursor ≤ length buf
  unfolding after_block
  headers_phase_reach state buf array store max_headers policy p inside call =
      let front = drop state.cursor buf in
      let (r, e, _) =
        parse_header_block_returns state.cursor front array.headers array.num_headers max_headers
          policy in
      let same : after_block state store array.num_headers r ≡ p =
        some-≡ (sym (headers_phase_of state buf array store max_headers policy r e) ∙ call) in
      let cursor : state.cursor + stay r.block_end 0 ≡ p.state.cursor =
        sym (block_status_cursor r.status _ _) ∙ ap (λ (p : Parsed A). p.state.cursor) same in
      elim (Option-cases r.block_end) [
        | inl untold ↦
            let moved : state.cursor + 0 ≡ p.state.cursor =
              subst (λ (o : Option ℕ). state.cursor + stay o 0 ≡ p.state.cursor) untold cursor in
            omega arith
        | inr (block_end, told) ↦
            let moved : state.cursor + block_end ≡ p.state.cursor =
              subst (λ (o : Option ℕ). state.cursor + stay o 0 ≡ p.state.cursor) told cursor in
            let within =
              parse_header_block_reach state.cursor front array.headers array.num_headers
                max_headers policy r block_end e told in
            omega (arith, length-drop state.cursor buf)
      ]

  cursor_of :
      {p : Parsed A} (q : Parsed A) {n : ℕ}
      → some q ≡ some p
      → q.state.cursor ≤ n
      → p.state.cursor ≤ n
  cursor_of q {n} same inside = subst (λ (p : Parsed A). p.state.cursor ≤ n) (some-≡ same) inside
