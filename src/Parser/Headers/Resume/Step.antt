-- ===== src/Parser/Headers/Resume/Step.antt =====
-- One round of `parse_header_block` of src/ihtp_parser.c, with and without the end of the line.
use iohttpparser.Base.{
  ℕ, ◌+◌, ◌≤◌, ◌<◌, ◌≡◌, ◌≢◌, refl, ap, ◌∙◌, sym, arith, Bool, true, false, ◌&&◌, none, some, List,
  [], ◌∷◌, ◌++◌, Bytes, ltb, leb, ◌==◌, if◌then◌else◌, length, get_or, take, drop, memchr, ◌⊎◌,
  Bool-cases, inl, inr, Option-cases, get_or-append_left, take-append_left, memchr-lt-length,
}
use iohttpparser.Chars.{is_lws}
use iohttpparser.Parser.Headers.{
  Block, BlockReturn, LineStep, next_line, return_with, stopped, failed, header_line, line_found,
  complete_line, continuation_line, field_line,
}
use iohttpparser.Parser.Line.Ends.{
  Fits, find_line_end-Fits, find_line_end-none, find_line_end-append,
}
use iohttpparser.Parser.Line.{
  LineEnd, line, no_line, find_line_end, trim_and_validate_field_value, find_header_name_colon,
}
use iohttpparser.Parser.Text.{field_text_is_valid}
use iohttpparser.Types.{
  Status, ok, incomplete, error, error_too_long, Header, Policy, max_header_line,
}

-- The position moves, by `n` at most; a return has a final status.
abbrev pub Advances : Block → ℕ → LineStep → Type 0
Advances b n (next_line b') = (b.pos < b'.pos) × (b'.pos ≤ b.pos + n)
Advances b n (return_with r) = Unit

-- A return for good: the block is complete and its count and end are told, or it failed.
pub data Final (r : BlockReturn) : Type 0 where
  completes :
      (n block_end : ℕ)
      → r.status ≡ ok
      → r.num_headers ≡ some n
      → r.block_end ≡ some block_end
      → Final r
  fails : r.status ≢ ok → r.status ≢ incomplete → Final r

pub Final-≢ : {r : BlockReturn} → Final r → r.status ≢ incomplete
Final-≢ (completes n block_end status _ _) early =
    let wrong : ok ≡ incomplete = sym status ∙ early in absurd (cc)
Final-≢ (fails _ status) early = status early

-- A return of the whole loop.
pub data Ends (r : BlockReturn) : Type 0 where
  for_good : Final r → Ends r
  for_more :
      (n block_end : ℕ)
      → r.status ≡ incomplete
      → r.num_headers ≡ some n
      → r.block_end ≡ some block_end
      → Ends r

abbrev pub IsFinal : LineStep → Type 0
IsFinal (next_line b) = Unit
IsFinal (return_with r) = Final r

-- A told end of the block lies at `n` at most.
abbrev pub EndsBy : ℕ → LineStep → Type 0
EndsBy n (next_line b) = Unit
EndsBy n (return_with r) = (e : ℕ) → r.block_end ≡ some e → e ≤ n

pub record Good (b : Block) (n : ℕ) (s : LineStep) : Type 0 where
  pub moves : Advances b n s
  pub final : IsFinal s
  pub ends : EndsBy (b.pos + n) s

failed-Good :
    {b : Block} {n : ℕ} {headers : List Header} (status : Status)
    → status ≢ ok
    → status ≢ incomplete
    → Good b n (
        return_with
          (record { status = status; headers = headers; num_headers = none; block_end = none }))
failed-Good status no_ok no_more = record {
  moves = tt;
  final = fails no_ok no_more;
  ends = λ e told. absurd (cc);
}

next-Good : {b b' : Block} {n : ℕ} → b.pos < b'.pos → b'.pos ≤ b.pos + n → Good b n (next_line b')
next-Good moved fits = record { moves = (moved, fits); final = tt; ends = tt }

-- A choice between two good outcomes.
if-Good :
    {b : Block} {n : ℕ} {s t : LineStep} (test : Bool)
    → Good b n s
    → Good b n t
    → Good b n (if test then s else t)
if-Good true p q = p
if-Good false p q = q

module _ (base max_headers : ℕ) (b : Block) (line_len ending n : ℕ) (pos : 0 < line_len + ending)
    (fits : line_len + ending ≤ n) where
  done-Good : Good b n (return_with (stopped b ok (b.pos + ending)))
  done-Good = record {
    moves = tt;
    final = completes b.count (b.pos + ending) refl refl refl;
    ends = λ e told. let same : b.pos + ending ≡ e = cc in omega arith;
  }

  continuation_line-Good : (text : Bytes) → Good b n (continuation_line base text b line_len ending)
  unfolding continuation_line
  continuation_line-Good text = if-Good (b.count == 0) (failed-Good _ (cc) (cc)) (
      if-Good (field_text_is_valid text) (next-Good (omega arith) (omega arith))
        (failed-Good _ (cc) (cc)))

  field_line-Good : (text : Bytes) → Good b n (field_line base max_headers text b line_len ending)
  unfolding field_line
  field_line-Good text = elim (Option-cases (find_header_name_colon text)) [
    | inl missing ↦ rw (missing, field_line) (failed-Good _ (cc) (cc))
    | inr (colon, found) ↦
        rw (found, field_line)
          (if-Good (leb max_headers b.count) (failed-Good _ (cc) (cc)) (
            if-Good (trim_and_validate_field_value (drop (colon + 1) text)).valid
              (next-Good (omega arith) (omega arith)) (failed-Good _ (cc) (cc))))
  ]

  complete_line-Good :
      (text : Bytes) (is_continuation : Bool)
      → Good b n (complete_line base max_headers text b is_continuation line_len ending)
  unfolding complete_line
  complete_line-Good text is_continuation =
      if-Good (ltb max_header_line line_len) (failed-Good _ (cc) (cc)) (
        if-Good (line_len == 0) done-Good
          (if-Good is_continuation (continuation_line-Good text) (field_line-Good text)))

module _ (base max_headers : ℕ) (policy : Policy) where
  -- A round at which the end of the line is there.
  pub header_line-Good :
      (rest : Bytes) (b : Block) {lf : ℕ}
      → memchr b'\n' rest ≡ some lf
      → Good b (length rest) (header_line base max_headers policy rest b)
  unfolding header_line
  header_line-Good rest b h =
      if-Good (policy.reject_obs_fold && is_lws (get_or rest 0 0)) (failed-Good _ (cc) (cc))
        (found (find_line_end rest policy) (find_line_end-Fits rest policy h))
    where
      found :
          (e : LineEnd)
          → Fits (length rest) e
          → Good b (length rest) (line_found base max_headers rest b (is_lws (get_or rest 0 0)) e)
      found (line n ending) fits =
          unfold line_found in
          complete_line-Good base max_headers b n ending (length rest) fits.0 fits.1 (take n rest)
            (is_lws (get_or rest 0 0))
      found (no_line status) fits = rw fits (unfold line_found in failed-Good _ (cc) (cc))

  -- What is behind the end of the line does not matter.
  pub header_line-append :
      (rest ys : Bytes) (b : Block) {lf : ℕ}
      → memchr b'\n' rest ≡ some lf
      → header_line base max_headers policy (rest ++ ys) b
        ≡ header_line base max_headers policy rest b
  unfolding header_line
  header_line-append rest ys b h =
      let front = get_or-append_left rest ys 0 0 (omega (arith, memchr-lt-length b'\n' rest h)) in
      rw (front, find_line_end-append rest ys policy h)
        (ap
          (λ (s : LineStep).
            let cont = is_lws (get_or rest 0 0) in
            if policy.reject_obs_fold && cont then failed b error else s)
          (same_found (find_line_end rest policy) (find_line_end-Fits rest policy h)))
    where
      same_found :
          (e : LineEnd)
          → Fits (length rest) e
          → line_found base max_headers (rest ++ ys) b (is_lws (get_or rest 0 0)) e
            ≡ line_found base max_headers rest b (is_lws (get_or rest 0 0)) e
      same_found (line n ending) fits =
          let text = take-append_left rest ys n (omega arith) in
          unfold line_found in
          ap (λ t. complete_line base max_headers t b (is_lws (get_or rest 0 0)) n ending) text
      same_found (no_line status) fits = rw fits (unfold line_found in refl)

  lws_first :
      (rest ys : Bytes)
      → is_lws (get_or rest 0 0) ≡ true
      → get_or (rest ++ ys) 0 0 ≡ get_or rest 0 0
  unfolding is_lws
  lws_first [] ys h = absurd (cc)
  lws_first (c ∷ cs) ys h = refl

  -- With no line end in reach the round returns, with `INCOMPLETE` and nothing changed or for good.
  pub header_line-none :
      (rest : Bytes) (b : Block)
      → memchr b'\n' rest ≡ none
      → (header_line base max_headers policy rest b ≡ return_with (stopped b incomplete b.pos))
        ⊎ ((status : Status) × (header_line base max_headers policy rest b ≡ failed b status)
            × (status ≢ ok)
            × (status ≢ incomplete)
            × ((ys : Bytes)
                → status ≢ error_too_long
                → header_line base max_headers policy (rest ++ ys) b ≡ failed b status))
  unfolding header_line line_found
  header_line-none rest b h =
      let gone = find_line_end-none rest policy h in
      elim (Bool-cases (policy.reject_obs_fold && is_lws (get_or rest 0 0))) [
        | inl fold ↦
            inr (error, rw (fold, header_line) refl, cc, cc, λ ys short. still_fold ys fold)
        | inr plain ↦ elim (Bool-cases (ltb max_header_line (length rest))) [
          | inl long ↦ inr (
            error_too_long,
            rw (plain, gone, long, header_line) refl,
            cc,
            cc,
            λ ys short. absurd (short refl),
          )
          | inr short ↦ inl (rw (plain, gone, short, header_line) refl)
        ]
      ]
    where
      still_fold :
          (ys : Bytes)
          → (policy.reject_obs_fold && is_lws (get_or rest 0 0)) ≡ true
          → header_line base max_headers policy (rest ++ ys) b ≡ failed b error
      still_fold ys fold =
          let white : is_lws (get_or rest 0 0) ≡ true = ground arith in
          let first = lws_first rest ys white in rw (first, fold, header_line) refl
