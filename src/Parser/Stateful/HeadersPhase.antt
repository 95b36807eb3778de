-- ===== src/Parser/Stateful/HeadersPhase.antt =====
-- The header phase of the stateful entry points of src/ihtp_parser.c when the input comes in pieces.
use iohttpparser.Base.{
  ℕ, ◌+◌, ◌≤◌, ◌≡◌, ◌≢◌, refl, ap, sym, ◌∙◌, arith, Option, some, ◌++◌, Bytes, length, drop,
  drop-append_left, drop-drop,
}
use iohttpparser.Parser.Headers.{BlockReturn, parse_header_block}
use iohttpparser.Parser.Headers.Resume.{parse_header_block_returns}
use iohttpparser.Parser.Headers.Resume.Step.{completes, fails, Ends, for_good, for_more}
use iohttpparser.Parser.Headers.Resumed.{parse_header_block_resume}
use iohttpparser.Parser.Headers.Shift.{later_return, later_result}
use iohttpparser.Parser.Stateful.{
  HeaderArray, Parsed, returned, block_status, after_block, headers_phase,
}
use iohttpparser.Types.{
  Status, ok, incomplete, error, error_too_long, error_too_many_headers, phase_error, ParserState,
  Policy,
}

-- Two results that do not differ for a caller: they are equal, or both are the same error, with
-- the parser in the error phase.
pub data SameResult {A : Type 0} (p q : Parsed A) : Type 0 where
  equal : p ≡ q → SameResult p q
  both_failed :
      p.status ≡ q.status
      → p.state.phase ≡ phase_error
      → q.state.phase ≡ phase_error
      → SameResult p q

module _ {A : Type 0} where
  -- What follows a block that was read from `e` bytes further on, and a block that was read at once.
  after_stop :
      (status : Status) (state : ParserState) (out : A) (moved : ParserState)
      → moved ≡ state
      → SameResult (block_status status moved out) (block_status status state out)
  after_stop status state out moved same = equal (ap (λ s. block_status status s out) same)

  after_fail :
      (status : Status) (s t : ParserState) (a b : A)
      → status ≢ ok
      → status ≢ incomplete
      → SameResult (block_status status s a) (block_status status t b)
  unfolding block_status
  after_fail ok s t a b no_ok no_more = absurd (no_ok refl)
  after_fail incomplete s t a b no_ok no_more = absurd (no_more refl)
  after_fail error s t a b no_ok no_more = both_failed refl refl refl
  after_fail error_too_long s t a b no_ok no_more = both_failed refl refl refl
  after_fail error_too_many_headers s t a b no_ok no_more = both_failed refl refl refl

  module _ (state : ParserState) (store : HeaderArray → A) (count count' e : ℕ)
      (r : BlockReturn) where
    after_told :
        (n block_end : ℕ)
        → r.num_headers ≡ some n
        → r.block_end ≡ some block_end
        → SameResult
            (after_block (record state { cursor = state.cursor + e }) store count' r)
            (after_block state store count (later_return e r))
    unfolding after_block
    after_told n block_end told place =
        rw (told, place)
          (after_stop r.status _ _ (record state { cursor = state.cursor + e + block_end })
            (ap (λ (c : ℕ). record state { cursor = c }) (omega arith)))

    after_block-later :
        Ends r
        → SameResult
            (after_block (record state { cursor = state.cursor + e }) store count' r)
            (after_block state store count (later_return e r))
    unfolding after_block
    after_block-later (for_more n block_end status told place) = after_told n block_end told place
    after_block-later (for_good (completes n block_end status told place)) =
        after_told n block_end told place
    after_block-later (for_good (fails no_ok no_more)) = after_fail r.status _ _ _ _ no_ok no_more

  pub block_status-status :
      (status : Status) (state : ParserState) (out : A)
      → (block_status status state out).status ≡ status
  unfolding block_status
  block_status-status ok state out = refl
  block_status-status incomplete state out = refl
  block_status-status error state out = refl
  block_status-status error_too_long state out = refl
  block_status-status error_too_many_headers state out = refl

  module _ (state : ParserState) (buf : Bytes) (array : HeaderArray) (store : HeaderArray → A)
      (max_headers : ℕ) (policy : Policy) where
    abbrev block_of : Option BlockReturn
    block_of =
        parse_header_block state.cursor (drop state.cursor buf) array.headers array.num_headers
          max_headers policy

    pub headers_phase_of :
        (r : BlockReturn)
        → block_of ≡ some r
        → headers_phase state buf array store max_headers policy
          ≡ some (after_block state store array.num_headers r)
    unfolding headers_phase
    headers_phase_of r e = rw (headers_phase, e) refl

  -- The header phase returns.
  pub headers_phase_returns :
      (state : ParserState) (buf : Bytes) (array : HeaderArray) (store : HeaderArray → A)
      (max_headers : ℕ) (policy : Policy)
      → (p : Parsed A) × (headers_phase state buf array store max_headers policy ≡ some p)
  headers_phase_returns state buf array store max_headers policy =
      let start = drop state.cursor buf in
      let (r, e, _) =
        parse_header_block_returns state.cursor start array.headers array.num_headers max_headers
          policy in
      (
        after_block state store array.num_headers r,
        headers_phase_of state buf array store max_headers policy r e,
      )

  -- A call that ended `INCOMPLETE` in the header phase, and the next call, on more bytes.
  pub headers_phase_resume :
      (state : ParserState) (xs ys : Bytes) (array : HeaderArray) (store : HeaderArray → A)
      (max_headers : ℕ) (policy : Policy) (first : Parsed A)
      → state.cursor ≤ length xs
      → headers_phase state xs array store max_headers policy ≡ some first
      → first.status ≡ incomplete
      → (array' : HeaderArray) × (e : ℕ) × (first
          ≡ returned incomplete (record state { cursor = state.cursor + e }) (store array'))
        × (second whole : Parsed A) × (headers_phase
              (record state { cursor = state.cursor + e })
              (xs ++ ys)
              array'
              store
              max_headers
              policy
            ≡ some second)
        × (headers_phase state (xs ++ ys) array store max_headers policy ≡ some whole)
        × SameResult second whole
  unfolding after_block block_status
  headers_phase_resume state xs ys array store max_headers policy first inside call early =
      let front = drop state.cursor xs in
      let (r, er, _) =
        parse_header_block_returns state.cursor front array.headers array.num_headers max_headers
          policy in
      let call' = headers_phase_of state xs array store max_headers policy r er in
      let first_is : first ≡ after_block state store array.num_headers r = cc in
      let early' =
        sym (block_status-status r.status _ _)
        ∙ sym (ap (λ (p : Parsed A). p.status) first_is)
        ∙ early in
      let (headers', count', e, same, _, joined) =
        parse_header_block_resume state.cursor front ys array.headers array.num_headers max_headers
          policy r er early' in
      let array' : HeaderArray = record { headers = headers'; num_headers = count' } in
      let moved = record state { cursor = state.cursor + e } in
      let (r2, er2, ends) =
        parse_header_block_returns moved.cursor (drop moved.cursor (xs ++ ys)) headers' count'
          max_headers policy in
      let split = drop-append_left xs ys state.cursor inside in
      let rest : drop e (front ++ ys) ≡ drop moved.cursor (xs ++ ys) =
        ap (drop e) (sym split) ∙ drop-drop e state.cursor (xs ++ ys) in
      let at_once : block_of state (xs ++ ys) array store max_headers policy
          ≡ some (later_return e r2) =
        ap
          (λ text.
            parse_header_block state.cursor text array.headers array.num_headers max_headers policy)
          split
        ∙ joined
        ∙ ap
            (λ text.
              later_result e
                (parse_header_block moved.cursor text headers' count' max_headers policy))
            rest
        ∙ ap (later_result e) er2 in
      (
        array',
        e,
        first_is ∙ ap (after_block state store array.num_headers) same,
        after_block moved store count' r2,
        after_block state store array.num_headers (later_return e r2),
        headers_phase_of moved (xs ++ ys) array' store max_headers policy r2 er2,
        headers_phase_of state (xs ++ ys) array store max_headers policy (later_return e r2)
            at_once,
        after_block-later state store array.num_headers count' e r2 ends,
      )
