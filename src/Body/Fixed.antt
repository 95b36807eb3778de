-- ===== src/Body/Fixed.antt =====
-- `ihtp_fixed_decoder_init` and `ihtp_decode_fixed` of src/ihtp_body_decoder.c.
use iohttpparser.Base.{
  ℕ, ◌+◌, ◌-◌, ◌%◌, ◌^◌, ◌≤◌, ◌<◌, ◌≡◌, ap, ◌∙◌, arith, List, [], ◌∷◌, ltb, ◌==◌, if◌then◌else◌,
}
use iohttpparser.Types.{Status, ok, incomplete, error}

pub record FixedDecoder : Type 0 where
  pub remaining : ℕ
  pub total_decoded : ℕ

pub fixed_decoder_init : ℕ → FixedDecoder
fixed_decoder_init content_length = record { remaining = content_length; total_decoded = 0 }

-- The decoder when `len` bytes have come in; `uint64_t` sums wrap.
consume_fixed : FixedDecoder → ℕ → FixedDecoder
consume_fixed d len = record {
  remaining = d.remaining - len;
  total_decoded = (d.total_decoded + len) % 2 ^ 64;
}

-- The decoder afterwards and the status.
pub decode_fixed : FixedDecoder → ℕ → FixedDecoder × Status
unfolding consume_fixed
decode_fixed d len =
    if ltb d.remaining len
    then (d, error)
    else (consume_fixed d len, if (consume_fixed d len).remaining == 0 then ok else incomplete)

-- The last result of calls with these lengths, one behind the other.
pub decode_blocks : FixedDecoder → ℕ → List ℕ → FixedDecoder × Status
unfolding decode_fixed
decode_blocks d len [] = decode_fixed d len
decode_blocks d len (next ∷ lens) = decode_blocks (decode_fixed d len).0 next lens

abbrev pub total_length : ℕ → List ℕ → ℕ
total_length len [] = len
total_length len (next ∷ lens) = len + total_length next lens

decode_blocks_from :
    (d : FixedDecoder) (len : ℕ) (lens : List ℕ)
    → total_length len lens ≤ d.remaining
    → d.total_decoded + d.remaining < 2 ^ 64
    → decode_blocks d len lens ≡ (
      record {
        remaining = d.remaining - total_length len lens;
        total_decoded = d.total_decoded + total_length len lens;
      },
      if total_length len lens == d.remaining then ok else incomplete,
    )
unfolding decode_blocks
decode_blocks_from d len [] fits small = ground arith
decode_blocks_from d len (next ∷ lens) fits small =
    ground (arith, decode_blocks_from (decode_fixed d len).0 next lens)

-- Blocks of a body that come one behind the other and do not exceed its length, which is a
-- `uint64_t`: what remains and what was decoded add up to the length, no sum wraps, and the last
-- call returns `OK` exactly when all has come, else `INCOMPLETE`.
pub decode_fixed_blocks :
    (content_length len : ℕ) (lens : List ℕ)
    → content_length < 2 ^ 64
    → total_length len lens ≤ content_length
    → decode_blocks (fixed_decoder_init content_length) len lens ≡ (
      record {
        remaining = content_length - total_length len lens;
        total_decoded = total_length len lens;
      },
      if total_length len lens == content_length then ok else incomplete,
    )
unfolding fixed_decoder_init
decode_fixed_blocks n len lens small fits =
    decode_blocks_from (fixed_decoder_init n) len lens fits (omega arith)
    ∙ ap
        (λ (t : ℕ).
          let d : FixedDecoder = record {
            remaining = n - total_length len lens;
            total_decoded = t;
          } in
          let r : FixedDecoder × Status =
            (d, if total_length len lens == n then ok else incomplete) in
          r)
        (omega arith)
