-- ===== src/Scanner/Dispatch.antt =====
-- The run-time dispatch of src/ihtp_scanner_scalar.c and what the selected scanner does.
use iohttpparser.Base.{
  ℕ, zero, suc, ◌+◌, ◌≤◌, ◌<◌, ◌≡◌, refl, sym, ap, ◌∙◌, arith, ◌||◌, not, ◌&&◌, [], ◌∷◌, Bytes, leb,
  ltb, leb→le, ◌==◌, length, take, drop, length-drop, length-take, Bool-cases, inl, inr,
  take-append-drop,
}
use Prim.Native.Nat.{bit_and}
use iohttpparser.Scanner.Backends.{
  AllBytes, IsFirstMatch, c_string, scan_table-scan_delims, find_blocks_avx2_lem,
  token_blocks_avx2_lem, scan_delims-append, scan_delims-IsFirstMatch, first_match_unique,
}
use iohttpparser.Scanner.Tokens.{all_tchar, is_token_scalar-all_tchar}
use iohttpparser.Scanner.{
  find_char_scalar, find_char_avx2, is_token_avx2, strlen, scan_delims, find_blocks_sse42,
  find_char_sse42, is_token_sse42, select_vtable, Features, delim_table,
}

find_char_scalar_lem :
    (buf delims : Bytes)
    → AllBytes delims
    → find_char_scalar buf delims ≡ scan_delims (c_string delims) buf
unfolding find_char_scalar
find_char_scalar_lem buf delims all = scan_table-scan_delims delims buf all

find_char_avx2_lem :
    (buf delims : Bytes)
    → AllBytes delims
    → find_char_avx2 buf delims ≡ scan_delims (c_string delims) buf
unfolding find_char_avx2
find_char_avx2_lem buf delims all =
    find_blocks_avx2_lem (length buf + 1) (delim_table delims) buf (omega arith)
    ∙ scan_table-scan_delims delims buf all

-- What the documentation of `_mm_cmpestri` says for `_SIDD_CMP_EQUAL_ANY` with
-- `_SIDD_LEAST_SIGNIFICANT`: the lowest index whose byte equals one of the needle's, or 16.
abbrev pub CmpestriLaw : (Bytes → Bytes → ℕ) → Type 0
CmpestriLaw cmpestri =
    (needle haystack : Bytes)
    → 0 < length needle
    → length needle ≤ 16
    → length haystack ≡ 16
    → IsFirstMatch needle haystack (cmpestri needle haystack)

strlen-le : (delims : Bytes) → strlen delims ≤ length delims
unfolding strlen
strlen-le [] = omega arith
strlen-le (d ∷ ds) = ground (arith, strlen-le ds)

module _ (cmpestri : Bytes → Bytes → ℕ) (law : CmpestriLaw cmpestri) where
  find_blocks_sse42_lem :
      (fuel : ℕ) (needle buf : Bytes)
      → 0 < length needle
      → length needle ≤ 16
      → length buf < fuel
      → find_blocks_sse42 cmpestri fuel needle buf ≡ scan_delims needle buf
  unfolding find_blocks_sse42
  find_blocks_sse42_lem zero needle buf pos small h = absurd (omega arith)
  find_blocks_sse42_lem (suc fuel) needle buf pos small h =
      elim (Bool-cases (leb 16 (length buf))) [
        | inl block ↦
            let room : 16 ≤ length buf = leb→le 16 (length buf) block in
            let size : length (take 16 buf) ≡ 16 = omega (arith, length-take 16 buf) in
            let found : cmpestri needle (take 16 buf) ≡ scan_delims needle (take 16 buf) =
              first_match_unique needle (take 16 buf) _ (law needle (take 16 buf) pos small size) in
            let split =
              ap (scan_delims needle) (sym (take-append-drop 16 buf))
              ∙ scan_delims-append needle (take 16 buf) (drop 16 buf) in
            let behind =
              find_blocks_sse42_lem fuel needle (drop 16 buf) pos small
                (omega (arith, length-drop 16 buf)) in
            elim (Bool-cases (ltb (scan_delims needle (take 16 buf)) 16)) [
              | inl here ↦
                  rw (block, found, here, find_blocks_sse42) (found ∙ sym (split ∙ rw (size, here)))
              | inr later ↦
                  rw (block, found, later, find_blocks_sse42) (rw (split, size, later, behind))
            ]
        | inr tail ↦ rw (tail, find_blocks_sse42) refl
      ]

  find_char_sse42_lem :
      (buf delims : Bytes)
      → AllBytes delims
      → find_char_sse42 cmpestri buf delims ≡ scan_delims (c_string delims) buf
  unfolding find_char_sse42
  find_char_sse42_lem buf delims all =
      elim (Bool-cases (strlen delims == 0 || ltb 16 (strlen delims))) [
        | inl scalar ↦ rw scalar (find_char_scalar_lem buf delims all)
        | inr blocks ↦
            let size : length (c_string delims) ≡ strlen delims =
              omega (arith, length-take (strlen delims) delims, strlen-le delims) in
            rw blocks (
              find_blocks_sse42_lem (length buf + 1) (c_string delims) buf (ground (arith, size))
                (ground (arith, size)) (omega arith))
      ]

  -- Whichever backends are compiled in and whatever the level, the selected scanner returns the
  -- offset of the first byte that is one of the delimiters before their NUL, or the length, and
  -- its token test accepts exactly the strings of RFC 9110's tchar. The text and the delimiters
  -- are bytes, and `_mm_cmpestri` is assumed to do what it documents.
  pub select_vtable-IsFirstMatch :
      (have : Features) (level : ℕ) (buf delims : Bytes)
      → AllBytes buf
      → AllBytes delims
      → IsFirstMatch
          (c_string delims)
          buf
          ((select_vtable cmpestri have level).find_char buf delims)
        × ((select_vtable cmpestri have level).is_token buf ≡ all_tchar buf)
  unfolding select_vtable
  select_vtable-IsFirstMatch have level buf delims bytes all =
      let first = scan_delims-IsFirstMatch (c_string delims) buf in
      elim (Bool-cases (have.avx2 && not (bit_and level 2 == 0))) [
        | inl avx2 ↦ rw avx2 (
          rw (find_char_avx2_lem buf delims all) first,
          unfold is_token_avx2 in
              token_blocks_avx2_lem (length buf + 1) buf (omega arith)
              ∙ is_token_scalar-all_tchar buf bytes,
        )
        | inr other ↦ elim (Bool-cases (have.sse42 && not (bit_and level 1 == 0))) [
          | inl sse42 ↦
              rw (other, sse42)
                (
                  rw (find_char_sse42_lem buf delims all) first,
                  unfold is_token_sse42 in is_token_scalar-all_tchar buf bytes,
                )
          | inr scalar ↦
              rw (other, scalar)
                (
                  rw (find_char_scalar_lem buf delims all) first,
                  is_token_scalar-all_tchar buf bytes,
                )
        ]
      ]
