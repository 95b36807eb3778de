-- ===== src/Parser/Headers/Resume.antt =====
-- How the loop of `parse_header_block` of src/ihtp_parser.c ends.
pub mod Step
use native.Mathlib.Nat.{le_refl}
use iohttpparser.Base.{
  ℕ, zero, suc, ◌+◌, ◌-◌, ◌≤◌, ◌<◌, ◌≡◌, ◌≢◌, refl, ap, ◌∙◌, sym, subst, arith, Bool, true, false,
  ◌&&◌, Option, none, some, List, [], ◌∷◌, ◌++◌, Bytes, ltb, ◌==◌, if◌then◌else◌, length, get_or,
  take, drop, memchr, length-append, length-drop, drop-append_left, Bool-cases, inl, inr, ◌⊎◌,
  dec_lt, Option-cases,
}
use iohttpparser.Parser.Headers.{
  Block, BlockReturn, LineStep, next_line, return_with, stopped, header_line, block_loop,
  parse_header_block,
}
use iohttpparser.Types.{Status, ok, incomplete, error_too_long, Header, Policy}
use Step.{
  Final, fails, Ends, for_good, for_more, Advances, IsFinal, Good, header_line-Good,
  header_line-none, header_line-append,
}

module _ (base max_headers : ℕ) (policy : Policy) where
  abbrev pub run : ℕ → Bytes → Block → Option BlockReturn
  run fuel = block_loop fuel base max_headers policy

  abbrev pub line_at : Bytes → Block → LineStep
  line_at buf b = header_line base max_headers policy (drop b.pos buf) b

  -- One round, when the outcome of the line is known.
  pub run_next :
      (fuel : ℕ) (buf : Bytes) (b b' : Block)
      → b.pos < length buf
      → line_at buf b ≡ next_line b'
      → run (suc fuel) buf b ≡ run fuel buf b'
  unfolding block_loop
  run_next fuel buf b b' more e =
      let inside : ltb b.pos (length buf) ≡ true = ground arith in rw (inside, e, block_loop) refl

  pub run_return :
      (fuel : ℕ) (buf : Bytes) (b : Block) (r : BlockReturn)
      → b.pos < length buf
      → line_at buf b ≡ return_with r
      → run (suc fuel) buf b ≡ some r
  unfolding block_loop
  run_return fuel buf b r more e =
      let inside : ltb b.pos (length buf) ≡ true = ground arith in rw (inside, e, block_loop) refl

  pub run_end :
      (fuel : ℕ) (buf : Bytes) (b : Block)
      → length buf ≤ b.pos
      → run (suc fuel) buf b ≡ some (stopped b incomplete b.pos)
  unfolding block_loop
  run_end fuel buf b done =
      let outside : ltb b.pos (length buf) ≡ false = ground arith in rw (outside, block_loop) refl

  -- The three ways of a round: it goes on within the buffer, it returns for good, or it stops for
  -- want of a line end.
  pub data Round (buf : Bytes) (b : Block) : Type 0 where
    goes_on :
        (b' : Block)
        → line_at buf b ≡ next_line b'
        → b.pos < b'.pos
        → b'.pos ≤ length buf
        → ((ys : Bytes) → line_at (buf ++ ys) b ≡ next_line b')
        → Round buf b
    returns :
        (r : BlockReturn)
        → line_at buf b ≡ return_with r
        → Final r
        → ((e : ℕ) → r.block_end ≡ some e → e ≤ length buf)
        → ((ys : Bytes) → r.status ≢ error_too_long → line_at (buf ++ ys) b ≡ return_with r)
        → Round buf b
    stops : line_at buf b ≡ return_with (stopped b incomplete b.pos) → Round buf b

  Round-with_line :
      (buf : Bytes) (b : Block) {lf : ℕ}
      → b.pos < length buf
      → memchr b'\n' (drop b.pos buf) ≡ some lf
      → Round buf b
  Round-with_line buf b more h =
      go (line_at buf b) refl (header_line-Good base max_headers policy (drop b.pos buf) b h)
    where
      same : (ys : Bytes) → line_at (buf ++ ys) b ≡ line_at buf b
      same ys =
          ap (λ rest. header_line base max_headers policy rest b)
            (drop-append_left buf ys b.pos (omega arith))
          ∙ header_line-append base max_headers policy (drop b.pos buf) ys b h

      go : (s : LineStep) → line_at buf b ≡ s → Good b (length (drop b.pos buf)) s → Round buf b
      go (next_line b') e g =
          goes_on b' e g.moves.0 (omega (arith, g.moves.1, length-drop b.pos buf))
            (λ ys. same ys ∙ e)
      go (return_with r) e g =
          returns r e g.final (λ k told. omega (arith, g.ends k told, length-drop b.pos buf))
            (λ ys short. same ys ∙ e)

  pub round : (buf : Bytes) (b : Block) → b.pos < length buf → Round buf b
  round buf b more = elim (Option-cases (memchr b'\n' (drop b.pos buf))) [
    | inl missing ↦ elim (header_line-none base max_headers policy (drop b.pos buf) b missing) [
      | inl e ↦ stops e
      | inr (status, e, no_ok, no_more, still) ↦
          returns _ e (fails no_ok no_more) (λ k told. absurd (cc))
            (λ ys short.
              ap (λ rest. header_line base max_headers policy rest b)
                (drop-append_left buf ys b.pos (omega arith))
              ∙ still ys short)
    ]
    | inr (lf, found) ↦ Round-with_line buf b more found
  ]

  -- With enough fuel one more round of it changes nothing.
  pub run_spare :
      (fuel : ℕ) (buf : Bytes) (b : Block)
      → length buf - b.pos < fuel
      → run fuel buf b ≡ run (suc fuel) buf b
  run_spare zero buf b enough = absurd (omega arith)
  run_spare (suc fuel) buf b enough = elim (dec_lt b.pos (length buf)) [
    | yes more ↦ elim (round buf b more) [
      | goes_on b' e moved fits _ ↦
          run_next fuel buf b b' more e
          ∙ run_spare fuel buf b' (omega arith)
          ∙ sym (run_next (suc fuel) buf b b' more e)
      | returns r e _ _ _ ↦
          run_return fuel buf b r more e ∙ sym (run_return (suc fuel) buf b r more e)
      | stops e ↦
          let r = stopped b incomplete b.pos in
          run_return fuel buf b r more e ∙ sym (run_return (suc fuel) buf b r more e)
    ]
    | no done ↦ run_end fuel buf b (omega arith) ∙ sym (run_end (suc fuel) buf b (omega arith))
  ]

  -- How a block ends: for good, or at a block `b'` from which more bytes go on.
  pub data Ending (fuel : ℕ) (buf : Bytes) (b : Block) : Type 0 where
    final : (r : BlockReturn) → run fuel buf b ≡ some r → Final r → Ending fuel buf b
    suspended :
        (b' : Block)
        → run fuel buf b ≡ some (stopped b' incomplete b'.pos)
        → b.pos ≤ b'.pos
        → b'.pos ≤ length buf
        → ((ys : Bytes) (more_fuel : ℕ)
            → length (buf ++ ys) - b.pos < more_fuel
            → run more_fuel (buf ++ ys) b ≡ run more_fuel (buf ++ ys) b')
        → Ending fuel buf b

  continue :
      (buf : Bytes) (b b' : Block) (fuel : ℕ)
      → b.pos < length buf
      → line_at buf b ≡ next_line b'
      → b.pos < b'.pos
      → ((ys : Bytes) → line_at (buf ++ ys) b ≡ next_line b')
      → Ending fuel buf b'
      → Ending (suc fuel) buf b
  continue buf b b' fuel more e moved same (final r e' done) =
      final r (run_next fuel buf b b' more e ∙ e') done
  continue buf b b' fuel more e moved same (suspended c e' later fits resume) =
      suspended c (run_next fuel buf b b' more e ∙ e') (omega arith) fits resumed
    where
      resumed :
          (ys : Bytes) (more_fuel : ℕ)
          → length (buf ++ ys) - b.pos < more_fuel
          → run more_fuel (buf ++ ys) b ≡ run more_fuel (buf ++ ys) c
      resumed ys zero h = absurd (omega arith)
      resumed ys (suc more_fuel) h =
          let longer : b.pos < length (buf ++ ys) = omega (arith, length-append buf ys) in
          let enough : length (buf ++ ys) - b'.pos < more_fuel = omega arith in
          run_next more_fuel (buf ++ ys) b b' longer (same ys)
          ∙ resume ys more_fuel enough
          ∙ run_spare more_fuel (buf ++ ys) c (omega arith)

  pub run-Ending :
      (fuel : ℕ) (buf : Bytes) (b : Block)
      → b.pos ≤ length buf
      → length buf - b.pos < fuel
      → Ending fuel buf b
  run-Ending zero buf b within enough = absurd (omega arith)
  run-Ending (suc fuel) buf b within enough = elim (dec_lt b.pos (length buf)) [
    | yes more ↦ elim (round buf b more) [
      | goes_on b' e moved fits same ↦
          continue buf b b' fuel more e moved same (run-Ending fuel buf b' fits (omega arith))
      | returns r e done _ _ ↦ final r (run_return fuel buf b r more e) done
      | stops e ↦
          suspended b (run_return fuel buf b (stopped b incomplete b.pos) more e) (le_refl _) within
            (λ ys more_fuel h. refl)
    ]
    | no done ↦
        suspended b (run_end fuel buf b (omega arith)) (le_refl _) within (λ ys more_fuel h. refl)
  ]

-- The fuel is enough: on every buffer, with every header array, count and limit, the loop returns,
-- and unless it fails it tells the number of headers and the place to go on from.
pub parse_header_block_returns :
    (base : ℕ) (buf : Bytes) (headers : List Header) (count max_headers : ℕ) (policy : Policy)
    → (r : BlockReturn) × (parse_header_block base buf headers count max_headers policy ≡ some r)
      × Ends r
unfolding parse_header_block
parse_header_block_returns base buf headers count max_headers policy =
    let b : Block = record { headers = headers; count = count; pos = 0 } in
    elim (run-Ending base max_headers policy (length buf + 1) buf b (omega arith) (omega arith)) [
      | final r e done ↦ (r, e, for_good done)
      | suspended b' e _ _ _ ↦
          (stopped b' incomplete b'.pos, e, for_more b'.count b'.pos refl refl refl)
    ]
