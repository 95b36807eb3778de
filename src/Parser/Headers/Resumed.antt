-- ===== src/Parser/Headers/Resumed.antt =====
-- A header block of src/ihtp_parser.c that comes in two pieces.
use iohttpparser.Base.{
  ℕ, zero, suc, ◌+◌, ◌-◌, ◌≤◌, ◌<◌, ◌≡◌, ap, sym, ◌∙◌, arith, some, List, ◌++◌, Bytes, length, drop,
  length-drop, length-append,
}
use iohttpparser.Parser.Headers.{Block, BlockReturn, stopped, parse_header_block}
use iohttpparser.Parser.Headers.Resume.{run, run_spare, final, suspended, run-Ending}
use iohttpparser.Parser.Headers.Resume.Step.{Final-≢}
use iohttpparser.Parser.Headers.Shift.{later_result, block_loop_later}
use iohttpparser.Types.{incomplete, Header, Policy}

module _ (base max_headers : ℕ) (policy : Policy) where
  -- More fuel than enough changes nothing.
  run_more :
      (extra fuel : ℕ) (buf : Bytes) (b : Block)
      → length buf - b.pos < fuel
      → run base max_headers policy fuel buf b ≡ run base max_headers policy (extra + fuel) buf b
  run_more zero fuel buf b enough =
      ap (λ (n : ℕ). run base max_headers policy n buf b) {x = fuel} {y = 0 + fuel} (omega arith)
  run_more (suc extra) fuel buf b enough =
      run_more extra fuel buf b enough
      ∙ run_spare base max_headers policy (extra + fuel) buf b (omega arith)
      ∙ ap (λ (n : ℕ). run base max_headers policy n buf b) {x = suc (extra + fuel)}
          {y = suc extra + fuel} (omega arith)

-- A block that stopped for want of bytes: a call on more bytes from `block_end` on, with the
-- headers and the count it left, gives what one call on all the bytes gives, and `block_end` of
-- that call is counted from there.
pub parse_header_block_resume :
    (base : ℕ) (xs ys : Bytes) (headers : List Header) (count max_headers : ℕ) (policy : Policy)
    (first : BlockReturn)
    → parse_header_block base xs headers count max_headers policy ≡ some first
    → first.status ≡ incomplete
    → (headers' : List Header) × (count' : ℕ) × (block_end : ℕ) × (first ≡ record {
      status = incomplete;
      headers = headers';
      num_headers = some count';
      block_end = some block_end;
    })
      × (block_end ≤ length xs)
      × (parse_header_block base (xs ++ ys) headers count max_headers policy
          ≡ later_result block_end (
              parse_header_block
                (base + block_end)
                (drop block_end (xs ++ ys))
                headers'
                count'
                max_headers
                policy))
unfolding parse_header_block
parse_header_block_resume base xs ys headers count max_headers policy first e stopped_early =
    let b : Block = record { headers = headers; count = count; pos = 0 } in
    elim (run-Ending base max_headers policy (length xs + 1) xs b (omega arith) (omega arith)) [
      | final r e' done ↦
          let same : first ≡ r = cc in
          absurd (Final-≢ done (sym (ap (λ (r : BlockReturn). r.status) same) ∙ stopped_early))
      | suspended b' e' _ fits resume ↦
          let c : Block = record { headers = b'.headers; count = b'.count; pos = 0 } in
          let whole = xs ++ ys in
          let rest = drop b'.pos whole in
          let same : first ≡ stopped b' incomplete b'.pos = cc in
          let fuel : length whole + 1 ≡ b'.pos + (length rest + 1) =
            omega (arith, length-drop b'.pos whole, length-append xs ys) in
          let at_pos = resume ys (length whole + 1) (omega arith) in
          let shifted = block_loop_later base b'.pos max_headers policy (length rest + 1) whole c in
          (
            b'.headers,
            b'.count,
            b'.pos,
            same,
            fits,
            at_pos
                ∙ ap (λ (n : ℕ). run base max_headers policy n whole b') fuel
                ∙ sym (
                    run_more base max_headers policy b'.pos (length rest + 1) whole b'
                      (omega arith))
                ∙ ap
                    (λ (p : ℕ).
                      run base max_headers policy (length rest + 1) whole (record b' { pos = p }))
                    {y = b'.pos + 0} (omega arith)
                ∙ shifted,
          )
    ]
