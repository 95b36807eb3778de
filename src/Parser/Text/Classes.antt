-- ===== src/Parser/Text/Classes.antt =====
-- `request_target_is_valid` and `field_text_is_valid` of src/ihtp_parser.c against the byte
-- classes that they stand for.
use iohttpparser.Base.{
  ◌≤◌, ◌≡◌, ◌≢◌, ◌↔◌, ◌⊎◌, refl, arith, Bool, true, false, [], ◌∷◌, ◌++◌, Bytes, length,
}
use iohttpparser.Parser.Text.Clean.{
  AllClean, skip_words_lem, skip_word_pairs_lem, skip_word_pairs-AllBytes,
}
use iohttpparser.Parser.Text.Words.{AllBytes, space, above_space}
use iohttpparser.Parser.Text.{
  skip_word_pairs, target_bytes_valid, request_target_is_valid, field_bytes_valid,
  field_text_is_valid,
}

-- No control, no space and no DEL, but spaces where they are allowed.
abbrev pub AllTarget : Bool → Bytes → Type 0
AllTarget allow_spaces [] = Unit
AllTarget allow_spaces (c ∷ cs) =
    ((0x21 ≤ c) × (c ≢ 0x7f) ⊎ (c ≡ b' ') × (allow_spaces ≡ true)) × AllTarget allow_spaces cs

-- HTAB, or no control and no DEL.
abbrev pub AllFieldText : Bytes → Type 0
AllFieldText [] = Unit
AllFieldText (c ∷ cs) = ((c ≡ b'\t') ⊎ (0x20 ≤ c) × (c ≢ 0x7f)) × AllFieldText cs

target_keep :
    (xs ys : Bytes)
    → AllClean 0x21 xs
    → target_bytes_valid false (xs ++ ys) ≡ target_bytes_valid false ys
unfolding target_bytes_valid
target_keep [] ys clean = refl
target_keep (x ∷ xs) ys clean = ground (arith, target_keep xs ys)

field_keep :
    (xs ys : Bytes) → AllClean 0x20 xs → field_bytes_valid (xs ++ ys) ≡ field_bytes_valid ys
unfolding field_bytes_valid
field_keep [] ys clean = refl
field_keep (x ∷ xs) ys clean = ground (arith, field_keep xs ys)

target_bytes_iff :
    (allow : Bool) (bs : Bytes) → (target_bytes_valid allow bs ≡ true) ↔ AllTarget allow bs
unfolding target_bytes_valid
target_bytes_iff allow [] = ground arith
target_bytes_iff allow (b ∷ bs) = ground (arith, target_bytes_iff allow bs)

field_bytes_iff : (bs : Bytes) → (field_bytes_valid bs ≡ true) ↔ AllFieldText bs
unfolding field_bytes_valid
field_bytes_iff [] = ground arith
field_bytes_iff (b ∷ bs) = ground (arith, field_bytes_iff bs)

-- The eight-bytes-at-a-time test accepts exactly the request-targets whose every byte is above the
-- space and not DEL, or is a space where spaces are allowed. The buffer holds bytes.
pub request_target_is_valid_iff :
    (buf : Bytes) (allow_spaces : Bool)
    → AllBytes buf
    → (request_target_is_valid buf allow_spaces ≡ true) ↔ AllTarget allow_spaces buf
unfolding request_target_is_valid
request_target_is_valid_iff buf true all = target_bytes_iff true buf
request_target_is_valid_iff buf false all =
    rw (skip_words_lem above_space (target_bytes_valid false) target_keep (length buf) buf all)
      (target_bytes_iff false buf)

-- The test by words, first two at a time and then one, accepts exactly the texts whose every byte
-- is HTAB, or at least the space and not DEL. The buffer holds bytes.
pub field_text_is_valid_iff :
    (buf : Bytes) → AllBytes buf → (field_text_is_valid buf ≡ true) ↔ AllFieldText buf
unfolding field_text_is_valid
field_text_is_valid_iff buf all =
    let rest = skip_word_pairs (length buf) buf in
    let all' = skip_word_pairs-AllBytes (length buf) buf all in
    rw
      (
        skip_words_lem space field_bytes_valid field_keep (length rest) rest all',
        skip_word_pairs_lem field_bytes_valid field_keep (length buf) buf all,
      )
      (field_bytes_iff buf)
