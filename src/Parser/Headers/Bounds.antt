-- ===== src/Parser/Headers/Bounds.antt =====
-- The spans that `parse_header_block` of src/ihtp_parser.c stores.
use iohttpparser.Base.{
  ℕ, zero, suc, ◌+◌, ◌-◌, ◌≤◌, ◌<◌, ◌≡◌, sym, ◌∙◌, subst, arith, Bool, true, false, ◌&&◌, Option,
  none, some, List, Bytes, leb, ltb, ◌==◌, if◌then◌else◌, length, get_or, set, take, drop, memchr,
  length-take, length-drop, Bool-cases, Option-cases, inl, inr, dec_lt, some-≡,
}
use iohttpparser.Chars.{is_lws}
use iohttpparser.Parser.Headers.{
  Block, BlockReturn, LineStep, next_line, return_with, stopped, header_line, line_found,
  complete_line, continuation_line, field_line, block_loop, parse_header_block,
}
use iohttpparser.Parser.Headers.Resume.{
  run, line_at, run_next, run_return, run_end, round, goes_on, returns, stops,
}
use iohttpparser.Parser.Line.Bounds.{trim_bounds, colon_bounds}
use iohttpparser.Parser.Line.Ends.{Fits, find_line_end-Fits, find_line_end-none}
use iohttpparser.Parser.Line.{
  LineEnd, line, no_line, find_line_end, find_header_name_colon, trim_and_validate_field_value,
}
use iohttpparser.Parser.Spans.{AllInside, AllInside-le, AllInside-add, AllInside-set}
use iohttpparser.Parser.Text.{field_text_is_valid}
use iohttpparser.Types.{Status, ok, incomplete, Header, zero_header, Policy, max_header_line}

-- What a round leaves: the headers counted so far lie before the new position, or before the
-- end that is told.
abbrev Placed : ℕ → LineStep → Type 0
Placed base (next_line b) = AllInside (base + b.pos) (take b.count b.headers)
Placed base (return_with r) =
    (n block_end : ℕ)
    → r.num_headers ≡ some n
    → r.block_end ≡ some block_end
    → AllInside (base + block_end) (take n r.headers)

record StepPlaced (base : ℕ) (s : LineStep) : Type 0 where
  placed : Placed base s

failed_placed :
    {base : ℕ} {status : Status} {headers : List Header}
    → StepPlaced base (
        return_with
          (record { status = status; headers = headers; num_headers = none; block_end = none }))
failed_placed = record { placed = λ n block_end told place. absurd (cc) }

if_placed :
    {base : ℕ} {s t : LineStep} (test : Bool)
    → StepPlaced base s
    → StepPlaced base t
    → StepPlaced base (if test then s else t)
if_placed true p q = p
if_placed false p q = q

-- A return that tells the block's count and an end behind its position.
stopped_placed :
    (base : ℕ) (b : Block) (status : Status) (block_end : ℕ)
    → b.pos ≤ block_end
    → AllInside (base + b.pos) (take b.count b.headers)
    → StepPlaced base (return_with (stopped b status block_end))
stopped_placed base b status block_end later all = record {
  placed = λ n e told place.
      let count : b.count ≡ n = cc in
      let at_end : block_end ≡ e = cc in
      subst (λ (k : ℕ). AllInside (base + k) (take n b.headers)) at_end
        (subst (λ (k : ℕ). AllInside (base + block_end) (take k b.headers)) count
          (AllInside-le (base + b.pos) (base + block_end) (take b.count b.headers) (omega arith)
            all));
}

module _ (base max_headers : ℕ) (b : Block)
    (all : AllInside (base + b.pos) (take b.count b.headers)) where
  module _ (line_len ending : ℕ) (text : Bytes) (size : length text ≡ line_len) where
    later : base + b.pos ≤ base + (b.pos + (line_len + ending))
    later = omega arith

    grown_placed :
        (0 < b.count)
        → AllInside (base + (b.pos + (line_len + ending))) (
            take b.count (
              set b.headers (b.count - 1) (record (get_or b.headers (b.count - 1) zero_header) {
                value_len =
                    base + b.pos + line_len - (get_or b.headers (b.count - 1) zero_header).value;
              })))
    grown_placed some_header =
        AllInside-set (base + (b.pos + (line_len + ending))) b.count (b.count - 1) b.headers _
          (omega arith)
          (AllInside-le (base + b.pos) (base + (b.pos + (line_len + ending)))
            (take b.count b.headers) later all)
          (λ i. record {
            name_pos = i.name_pos;
            name_end = i.name_end;
            value_end = omega (arith, i.value_end);
          })

    continuation_line_placed : StepPlaced base (continuation_line base text b line_len ending)
    unfolding continuation_line
    continuation_line_placed = elim (Bool-cases (b.count == 0)) [
      | inl none_yet ↦ rw (continuation_line, none_yet) failed_placed
      | inr some_header ↦
          rw (continuation_line, some_header)
            (if_placed (field_text_is_valid text) (record { placed = grown_placed (ground arith) })
              failed_placed)
    ]

    field_line_placed : StepPlaced base (field_line base max_headers text b line_len ending)
    unfolding field_line
    field_line_placed = elim (Option-cases (find_header_name_colon text)) [
      | inl missing ↦ rw (field_line, missing) failed_placed
      | inr (colon, found) ↦
          let value = trim_and_validate_field_value (drop (colon + 1) text) in
          let bounds = colon_bounds text found in
          let fits = trim_bounds (drop (colon + 1) text) in
          rw (field_line, found)
            (if_placed (leb max_headers b.count) failed_placed (
              if_placed value.valid
                (record {
                  placed =
                      AllInside-add (base + (b.pos + (line_len + ending))) b.count b.headers
                        (record {
                          name = base + b.pos;
                          name_len = colon;
                          value = base + b.pos + (colon + 1) + value.start;
                          value_len = value.len;
                        })
                        (AllInside-le (base + b.pos) (base + (b.pos + (line_len + ending)))
                          (take b.count b.headers) later all)
                        (record {
                          name_pos = bounds.0;
                          name_end = omega arith;
                          value_end = omega (arith, fits, length-drop (colon + 1) text);
                        });
                })
                failed_placed))
    ]

  module _ (line_len ending : ℕ) (text : Bytes) (size : length text ≡ line_len) where
    complete_line_placed :
        (is_continuation : Bool)
        → StepPlaced base (complete_line base max_headers text b is_continuation line_len ending)
    unfolding complete_line
    complete_line_placed is_continuation = if_placed (ltb max_header_line line_len) failed_placed (
        if_placed (line_len == 0) (stopped_placed base b ok (b.pos + ending) (omega arith) all) (
          if_placed is_continuation (continuation_line_placed line_len ending text size)
            (field_line_placed line_len ending text size)))

  found_placed :
      (rest : Bytes) (is_continuation : Bool) (e : LineEnd)
      → Fits (length rest) e
      → StepPlaced base (line_found base max_headers rest b is_continuation e)
  unfolding line_found
  found_placed rest is_continuation (no_line status) fits = rw fits failed_placed
  found_placed rest is_continuation (line n ending) fits =
      complete_line_placed n ending (take n rest) (omega (arith, length-take n rest))
        is_continuation

  header_line_placed :
      (rest : Bytes) (policy : Policy)
      → StepPlaced base (header_line base max_headers policy rest b)
  unfolding header_line line_found
  header_line_placed rest policy = elim (Option-cases (memchr b'\n' rest)) [
    | inl missing ↦
        rw (header_line, find_line_end-none rest policy missing)
          (if_placed (policy.reject_obs_fold && is_lws (get_or rest 0 0)) failed_placed (
            if_placed (ltb max_header_line (length rest)) failed_placed
              (stopped_placed base b incomplete b.pos (omega arith) all)))
    | inr (lf, found) ↦
        if_placed (policy.reject_obs_fold && is_lws (get_or rest 0 0)) failed_placed (
          found_placed rest (is_lws (get_or rest 0 0)) (find_line_end rest policy)
            (find_line_end-Fits rest policy found))
  ]

-- The count and the end that a return tells.
abbrev pub Told : ℕ → ℕ → BlockReturn → Type 0
Told base size r = Placed base (return_with r) × ((e : ℕ) → r.block_end ≡ some e → e ≤ size)

module _ (base max_headers : ℕ) (policy : Policy) (buf : Bytes) where
  abbrev loop : ℕ → Block → Option BlockReturn
  loop fuel b = run base max_headers policy fuel buf b

  abbrev line_here : Block → LineStep
  line_here b = line_at base max_headers policy buf b

  block_loop_placed :
      (fuel : ℕ) (b : Block) (r : BlockReturn)
      → b.pos ≤ length buf
      → AllInside (base + b.pos) (take b.count b.headers)
      → loop fuel b ≡ some r
      → Told base (length buf) r
  unfolding block_loop
  block_loop_placed zero b r within all done = absurd (cc)
  block_loop_placed (suc fuel) b r within all done = elim (dec_lt b.pos (length buf)) [
    | yes more ↦ elim (round base max_headers policy buf b more) [
      | goes_on b' e moved fits _ ↦
          let p = subst (StepPlaced base) e (placed_here more) in
          block_loop_placed fuel b' r fits p.placed
            (sym (run_next base max_headers policy fuel buf b b' more e) ∙ done)
      | returns r' e _ ends _ ↦
          let p = subst (StepPlaced base) e (placed_here more) in
          let same : r' ≡ r =
            some-≡ (sym (run_return base max_headers policy fuel buf b r' more e) ∙ done) in
          subst (Told base (length buf)) same (p.placed, ends)
      | stops e ↦
          let p = subst (StepPlaced base) e (placed_here more) in
          let same : stopped b incomplete b.pos ≡ r = some-≡ (
            sym (run_return base max_headers policy fuel buf b (stopped b incomplete b.pos) more e)
            ∙ done) in
          subst (Told base (length buf)) same
            (p.placed, λ k told. let at : b.pos ≡ k = cc in omega arith)
    ]
    | no over ↦
        let same : stopped b incomplete b.pos ≡ r =
          some-≡ (sym (run_end base max_headers policy fuel buf b (omega arith)) ∙ done) in
        let p = stopped_placed base b incomplete b.pos (omega arith) all in
        subst (Told base (length buf)) same
          (p.placed, λ k told. let at : b.pos ≡ k = cc in omega arith)
  ]
    where
      placed_here : b.pos < length buf → StepPlaced base (line_here b)
      placed_here more = header_line_placed base max_headers b all (drop b.pos buf) policy

-- Where the headers that the array holds at the call, up to the count passed in, lie before the
-- block's base: the headers that `parse_header_block` leaves, up to the count it tells, lie before
-- the end that it tells, and this end lies in the buffer.
pub parse_header_block_placed :
    (base : ℕ) (buf : Bytes) (headers : List Header) (count max_headers : ℕ) (policy : Policy)
    (r : BlockReturn)
    → AllInside base (take count headers)
    → parse_header_block base buf headers count max_headers policy ≡ some r
    → Told base (length buf) r
unfolding parse_header_block
parse_header_block_placed base buf headers count max_headers policy r all call =
    block_loop_placed base max_headers policy buf (length buf + 1)
      (record { headers = headers; count = count; pos = 0 }) r (omega arith)
      (AllInside-le base (base + 0) (take count headers) (omega arith) all) call
