-- ===== src/Parser/Stateful/HeaderArrays.antt =====
-- `ihtp_parse_headers_stateful` of src/ihtp_parser.c on a header block that comes in pieces.
use iohttpparser.Base.{ℕ, ◌≤◌, ◌≡◌, refl, Option, some, ◌++◌, Bytes, length}
use iohttpparser.Parser.Stateful.{
  HeaderArray, Parsed, resolve_policy, header_array_phase, parse_headers_stateful,
}
use iohttpparser.Parser.Stateful.HeadersPhase.{SameResult, headers_phase_resume}
use iohttpparser.Parser.Stateful.Joined.{Joined, in_headers, status_of_first}
use iohttpparser.Types.{
  incomplete, ParserMode, mode_request, mode_response, mode_headers, ParserPhase, phase_start_line,
  phase_headers, phase_done, phase_error, ParserState, Policy,
}

module _ (policy : Policy) (max_headers : ℕ) (xs ys : Bytes) where
  abbrev next_call : Parsed HeaderArray → Option (Parsed HeaderArray)
  next_call first =
      header_array_phase first.state.phase first.state (xs ++ ys) first.out max_headers policy

  header_array_phase_resume :
      (phase : ParserPhase) (mode : ParserMode) (cursor : ℕ) (array : HeaderArray)
      (first : Parsed HeaderArray)
      → let state : ParserState = record { mode = mode; phase = phase; cursor = cursor } in
        cursor ≤ length xs
        → header_array_phase phase state xs array max_headers policy ≡ some first
        → first.status ≡ incomplete
        → Joined mode first
            (next_call first)
            (header_array_phase phase state (xs ++ ys) array max_headers policy)
  unfolding header_array_phase
  header_array_phase_resume phase_error mode cursor array first inside call early =
      let wrong = status_of_first _ call early in absurd (cc)
  header_array_phase_resume phase_done mode cursor array first inside call early =
      let wrong = status_of_first _ call early in absurd (cc)
  header_array_phase_resume phase_start_line mode cursor array first inside call early =
      let wrong = status_of_first _ call early in absurd (cc)
  header_array_phase_resume phase_headers mode cursor array first inside call early =
      let (array', e, first_is, p, q, second_is, whole_is, same) =
        headers_phase_resume (in_headers mode cursor) xs ys array (λ a. a) max_headers policy first
          inside call early in
      rw first_is (record {
        p = p;
        q = q;
        second_is = second_is;
        whole_is = whole_is;
        same = same;
        kept = refl;
      })

-- A header block that comes in two pieces: where the first call returns `INCOMPLETE`, the next
-- call on the longer buffer, with the state and the array that it left, and one call on the longer
-- buffer both return. The results are equal (the status, the state, the headers and their number,
-- the bytes consumed), or both calls fail with the same status, in the error phase. The cursor
-- lies in the first piece.
pub parse_headers_stateful_resume :
    (state : ParserState) (xs ys : Bytes) (array : HeaderArray) (max_headers : ℕ)
    (policy : Option Policy) (consumed consumed' consumed'' : ℕ) (first : Parsed HeaderArray)
    → state.cursor ≤ length xs
    → parse_headers_stateful state xs array max_headers policy consumed ≡ some first
    → first.status ≡ incomplete
    → (second whole : Parsed HeaderArray) × (parse_headers_stateful first.state
          (xs ++ ys)
          first.out
          max_headers
          policy
          consumed'
        ≡ some second)
      × (parse_headers_stateful state (xs ++ ys) array max_headers policy consumed'' ≡ some whole)
      × SameResult second whole
unfolding parse_headers_stateful
parse_headers_stateful_resume state xs ys array max policy k k' k'' first inside call early =
    by_mode state.mode state.phase state.cursor inside call
  where
    by_mode :
        (mode : ParserMode) (phase : ParserPhase) (cursor : ℕ)
        → let state' : ParserState = record { mode = mode; phase = phase; cursor = cursor } in
          cursor ≤ length xs
          → parse_headers_stateful state' xs array max policy k ≡ some first
          → (second whole : Parsed HeaderArray) × (parse_headers_stateful first.state
                (xs ++ ys)
                first.out
                max
                policy
                k'
              ≡ some second)
            × (parse_headers_stateful state' (xs ++ ys) array max policy k'' ≡ some whole)
            × SameResult second whole
    by_mode mode_headers phase cursor inside call =
        let j =
          header_array_phase_resume (resolve_policy policy) max xs ys phase mode_headers cursor
            array first inside call early in
        (j.p, j.q, rw (parse_headers_stateful, j.kept) j.second_is, j.whole_is, j.same)
    by_mode mode_request phase cursor inside call =
        let wrong = status_of_first _ call early in absurd (cc)
    by_mode mode_response phase cursor inside call =
        let wrong = status_of_first _ call early in absurd (cc)
