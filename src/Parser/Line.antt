-- ===== src/Parser/Line.antt =====
-- The searches in a line of src/ihtp_parser.c.
pub mod Bounds
pub mod Print
pub mod Ends
use iohttpparser.Base.{
  ℕ, zero, suc, ◌+◌, ◌-◌, Bool, true, false, not, ◌&&◌, ◌||◌, Option, none, some, [], ◌∷◌, Bytes,
  leb, ltb, ◌==◌, if◌then◌else◌, length, get_or, take, drop, memchr, memrchr,
}
use iohttpparser.Chars.{is_token_char, is_lws}
use iohttpparser.Parser.Text.{field_text_is_valid}
use iohttpparser.Types.{Status, incomplete, error, Policy}

-- `line` is the return of `IHTP_OK` with `*line_end - buf` and `*line_ending_len`.
pub data LineEnd : Type 0 where
  line : ℕ → ℕ → LineEnd
  no_line : Status → LineEnd

unfoldable pub find_line_end : Bytes → Policy → LineEnd
unfolding memchr
find_line_end buf policy = elim (memchr b'\n' buf) [
  | none ↦ no_line incomplete
  | some lf ↦
      if ltb 0 lf && get_or buf (lf - 1) 0 == b'\r'
      then line (lf - 1) 2
      else if policy.reject_bare_lf
      then no_line error
      else line lf 1
]

unfoldable pub all_token_chars : Bytes → Bool
all_token_chars [] = true
all_token_chars (c ∷ cs) = is_token_char c && all_token_chars cs

unfoldable pub find_header_name_colon : Bytes → Option ℕ
unfolding memchr all_token_chars
find_header_name_colon buf = elim (memchr b':' buf) [
  | none ↦ none
  | some colon_offset ↦
      if colon_offset == 0
      then none
      else if all_token_chars (take colon_offset buf)
      then some colon_offset
      else none
]

-- The loop at index `i`.
unfoldable pub method_space_from : ℕ → Bytes → Option ℕ
method_space_from i [] = none
method_space_from i (c ∷ cs) =
    let rest = method_space_from (i + 1) cs in
    if c == b' '
    then if i == 0 then none else some i
    else if not (is_token_char c)
    then none
    else rest

unfoldable pub find_method_space : Bytes → Option ℕ
unfolding method_space_from
find_method_space = method_space_from 0

unfoldable pub find_last_char_offset : Bytes → ℕ → Option ℕ
unfolding memrchr
find_last_char_offset buf ch = memrchr ch buf

-- `while (first < len && ihtp_is_lws(buf[first])) first++`
unfoldable pub count_leading_lws : Bytes → ℕ
count_leading_lws [] = 0
count_leading_lws (c ∷ cs) = if is_lws c then suc (count_leading_lws cs) else 0

-- `while (last > first && ihtp_is_lws(buf[last - 1])) last--`
unfoldable pub trim_last : Bytes → ℕ → ℕ → ℕ
trim_last buf first zero = 0
trim_last buf first (suc last) =
    let shorter = trim_last buf first last in
    if ltb first (suc last) && is_lws (get_or buf last 0) then shorter else suc last

-- `*trimmed_start - buf`, `*trimmed_len` and the result.
pub record Trimmed : Type 0 where
  pub start : ℕ
  pub len : ℕ
  pub valid : Bool

unfoldable pub trim_and_validate_field_value : Bytes → Trimmed
unfolding count_leading_lws trim_last field_text_is_valid
trim_and_validate_field_value buf =
    let first = count_leading_lws buf in
    let last = trim_last buf first (length buf) in
    if first == length buf then record { start = length buf; len = 0; valid = true } else record {
      start = first;
      len = last - first;
      valid = field_text_is_valid (take (last - first) (drop first buf));
    }
