-- ===== src/Parser/Headers/Reach.antt =====
-- How far `parse_header_block` of src/ihtp_parser.c gets: not behind the buffer.
use iohttpparser.Base.{
  ℕ, zero, suc, ◌+◌, ◌≤◌, ◌≡◌, sym, ◌∙◌, subst, arith, Option, some, List, Bytes, length, dec_lt,
  some-≡,
}
use iohttpparser.Parser.Headers.Resume.{
  run, run_next, run_return, run_end, round, goes_on, returns, stops,
}
use iohttpparser.Parser.Headers.{Block, BlockReturn, stopped, block_loop, parse_header_block}
use iohttpparser.Types.{incomplete, Header, Policy}

-- A told end lies at `n` at most.
record Reach (n : ℕ) (r : BlockReturn) : Type 0 where
  pub at : (e : ℕ) → r.block_end ≡ some e → e ≤ n

stopped-Reach : (n : ℕ) (b : Block) → b.pos ≤ n → Reach n (stopped b incomplete b.pos)
stopped-Reach n b within = record { at = λ e told. let same : b.pos ≡ e = cc in omega arith }

module _ (base max_headers : ℕ) (policy : Policy) (buf : Bytes) where
  abbrev loop : ℕ → Block → Option BlockReturn
  loop fuel b = run base max_headers policy fuel buf b

  block_loop-Reach :
      (fuel : ℕ) (b : Block) (r : BlockReturn)
      → b.pos ≤ length buf
      → loop fuel b ≡ some r
      → Reach (length buf) r
  unfolding block_loop
  block_loop-Reach zero b r within call = absurd (cc)
  block_loop-Reach (suc fuel) b r within call = elim (dec_lt b.pos (length buf)) [
    | yes more ↦ elim (round base max_headers policy buf b more) [
      | goes_on b' e moved fits _ ↦
          block_loop-Reach fuel b' r fits
            (sym (run_next base max_headers policy fuel buf b b' more e) ∙ call)
      | returns r' e _ ends _ ↦
          subst (Reach (length buf))
            (some-≡ (sym (run_return base max_headers policy fuel buf b r' more e) ∙ call))
            (record { at = ends })
      | stops e ↦
          subst (Reach (length buf))
            (some-≡ (
              sym
                (run_return base max_headers policy fuel buf b (stopped b incomplete b.pos) more e)
              ∙ call))
            (stopped-Reach (length buf) b within)
    ]
    | no over ↦
        subst (Reach (length buf))
          (some-≡ (sym (run_end base max_headers policy fuel buf b (omega arith)) ∙ call))
          (stopped-Reach (length buf) b within)
  ]

pub parse_header_block_reach :
    (base : ℕ) (buf : Bytes) (headers : List Header) (count max_headers : ℕ) (policy : Policy)
    (r : BlockReturn) (e : ℕ)
    → parse_header_block base buf headers count max_headers policy ≡ some r
    → r.block_end ≡ some e
    → e ≤ length buf
unfolding parse_header_block
parse_header_block_reach base buf headers count max_headers policy r e call told =
    (block_loop-Reach base max_headers policy buf (length buf + 1)
        (record { headers = headers; count = count; pos = 0 }) r (omega arith) call).at
      e told
