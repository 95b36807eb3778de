-- ===== src/Parser/Headers/Stable.antt =====
-- `parse_header_block` of src/ihtp_parser.c when there is more behind a block that it answered.
use iohttpparser.Base.{
  ℕ, zero, suc, ◌+◌, ◌≤◌, ◌<◌, ◌≡◌, ◌≢◌, ap, sym, ◌∙◌, arith, Option, some, List, ◌++◌, Bytes,
  length, length-append, dec_lt, some-≡,
}
use iohttpparser.Parser.Headers.Resume.{
  run, run_next, run_return, run_end, round, goes_on, returns, stops,
}
use iohttpparser.Parser.Headers.{Block, BlockReturn, stopped, block_loop, parse_header_block}
use iohttpparser.Types.{incomplete, error_too_long, Header, Policy}

module _ (base max_headers : ℕ) (policy : Policy) (buf ys : Bytes) where
  abbrev here : ℕ → Bytes → Block → Option BlockReturn
  here fuel text b = run base max_headers policy fuel text b

  block_loop-append :
      (fuel more_fuel : ℕ) (b : Block) (r : BlockReturn)
      → fuel ≤ more_fuel
      → here fuel buf b ≡ some r
      → r.status ≢ incomplete
      → r.status ≢ error_too_long
      → here more_fuel (buf ++ ys) b ≡ some r
  unfolding block_loop
  block_loop-append zero more_fuel b r le call no_more no_long = absurd (cc)
  block_loop-append (suc fuel) zero b r le call no_more no_long = absurd (omega arith)
  block_loop-append (suc fuel) (suc more_fuel) b r le call no_more no_long =
      elim (dec_lt b.pos (length buf)) [
        | yes more ↦
            let longer : b.pos < length (buf ++ ys) = omega (arith, length-append buf ys) in
            elim (round base max_headers policy buf b more) [
              | goes_on b' e moved fits same ↦
                  run_next base max_headers policy more_fuel (buf ++ ys) b b' longer (same ys)
                  ∙ block_loop-append fuel more_fuel b' r (omega arith)
                      (sym (run_next base max_headers policy fuel buf b b' more e) ∙ call) no_more
                      no_long
              | returns r' e _ _ still ↦
                  let same : r' ≡ r =
                    some-≡ (sym (run_return base max_headers policy fuel buf b r' more e) ∙ call) in
                  let short : r'.status ≢ error_too_long =
                    λ h. no_long (sym (ap (λ (r : BlockReturn). r.status) same) ∙ h) in
                  run_return base max_headers policy more_fuel (buf ++ ys) b r' longer
                    (still ys short)
                  ∙ ap some same
              | stops e ↦ absurd (
                  no_more (
                    stopped_now (
                      sym (
                        run_return base max_headers policy fuel buf b (stopped b incomplete b.pos)
                          more e)
                      ∙ call)))
            ]
        | no over ↦ absurd (
            no_more
              (stopped_now (sym (run_end base max_headers policy fuel buf b (omega arith)) ∙ call)))
      ]
    where
      stopped_now : some (stopped b incomplete b.pos) ≡ some r → r.status ≡ incomplete
      stopped_now e = sym (ap (λ (r : BlockReturn). r.status) (some-≡ e))

-- An answer other than `INCOMPLETE` and `TOO_LONG` does not depend on what is behind the block.
pub parse_header_block-append :
    (base : ℕ) (buf ys : Bytes) (headers : List Header) (count max_headers : ℕ) (policy : Policy)
    (r : BlockReturn)
    → parse_header_block base buf headers count max_headers policy ≡ some r
    → r.status ≢ incomplete
    → r.status ≢ error_too_long
    → parse_header_block base (buf ++ ys) headers count max_headers policy ≡ some r
unfolding parse_header_block
parse_header_block-append base buf ys headers count max_headers policy r call no_more no_long =
    block_loop-append base max_headers policy buf ys (length buf + 1) (length (buf ++ ys) + 1)
      (record { headers = headers; count = count; pos = 0 }) r (omega (arith, length-append buf ys))
      call no_more no_long
