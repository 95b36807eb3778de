-- ===== src/Parser/Line/Bounds.antt =====
-- Where the searches and the trimming of src/ihtp_parser.c stop.
use iohttpparser.Base.{
  ℕ, zero, suc, ◌+◌, ◌≤◌, ◌<◌, ◌≡◌, arith, some, [], ◌∷◌, Bytes, length, memchr, memrchr,
  memchr-lt-length, Option-cases, inl, inr,
}
use iohttpparser.Parser.Line.{
  find_header_name_colon, method_space_from, find_method_space, find_last_char_offset,
  count_leading_lws, trim_last, trim_and_validate_field_value,
}

count_leading_lws-le : (buf : Bytes) → count_leading_lws buf ≤ length buf
unfolding count_leading_lws
count_leading_lws-le [] = omega arith
count_leading_lws-le (c ∷ cs) = ground (arith, count_leading_lws-le cs)

trim_last_bounds :
    (buf : Bytes) (first last : ℕ)
    → first ≤ last
    → (first ≤ trim_last buf first last) × (trim_last buf first last ≤ last)
unfolding trim_last
trim_last_bounds buf first zero h = omega arith
trim_last_bounds buf first (suc last) h = ground (arith, trim_last_bounds buf first last)

-- The trimmed value lies in the text.
pub trim_bounds :
    (buf : Bytes)
    → (trim_and_validate_field_value buf).start + (trim_and_validate_field_value buf).len
      ≤ length buf
unfolding trim_and_validate_field_value
trim_bounds buf =
    ground
      (arith, count_leading_lws-le buf, trim_last_bounds buf (count_leading_lws buf) (length buf))

-- The colon stands behind a name that is not empty.
pub colon_bounds :
    (buf : Bytes) {colon : ℕ}
    → find_header_name_colon buf ≡ some colon
    → (0 < colon) × (colon < length buf)
unfolding find_header_name_colon
colon_bounds buf {colon} h = elim (Option-cases (memchr b':' buf)) [
  | inl missing ↦ absurd (cc)
  | inr (i, found) ↦ let lt = memchr-lt-length b':' buf found in ground (arith, found, lt)
]

method_space_bounds :
    (i : ℕ) (buf : Bytes) {at : ℕ}
    → method_space_from i buf ≡ some at
    → (0 < at) × (i ≤ at) × (at < i + length buf)
unfolding method_space_from
method_space_bounds i [] h = absurd (cc)
method_space_bounds i (c ∷ cs) {at} h = ground (arith, method_space_bounds (i + 1) cs {at = at})

-- The space behind the method.
pub find_method_space_bounds :
    (buf : Bytes) {at : ℕ} → find_method_space buf ≡ some at → (0 < at) × (at < length buf)
unfolding find_method_space
find_method_space_bounds buf h = omega (arith, method_space_bounds 0 buf h)

memrchr-lt-length : (c : ℕ) (xs : Bytes) {i : ℕ} → memrchr c xs ≡ some i → i < length xs
unfolding memrchr
memrchr-lt-length c [] h = absurd (cc)
memrchr-lt-length c (x ∷ xs) {i} h = elim (Option-cases (memrchr c xs)) [
  | inl missing ↦ ground (arith, missing)
  | inr (j, found) ↦ ground (arith, found, memrchr-lt-length c xs found)
]

pub find_last_char_offset_bounds :
    (buf : Bytes) (c : ℕ) {at : ℕ} → find_last_char_offset buf c ≡ some at → at < length buf
unfolding find_last_char_offset
find_last_char_offset_bounds buf c h = memrchr-lt-length c buf h
