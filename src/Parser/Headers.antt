-- ===== src/Parser/Headers.antt =====
-- `parse_header_block` of src/ihtp_parser.c. `base` is the offset of `buf` in the whole input.
pub mod Bounds
pub mod Resume
pub mod Reach
pub mod RoundTrip
pub mod Resumed
pub mod Shift
pub mod Stable
use iohttpparser.Base.{
  ℕ, zero, suc, ◌+◌, ◌-◌, Bool, true, false, ◌&&◌, Option, none, some, List, Bytes, leb, ltb, ◌==◌,
  if◌then◌else◌, length, get_or, set, take, drop,
}
use iohttpparser.Chars.{is_lws}
use iohttpparser.Parser.Line.{
  LineEnd, line, no_line, find_line_end, find_header_name_colon, trim_and_validate_field_value,
}
use iohttpparser.Parser.Text.{field_text_is_valid}
use iohttpparser.Types.{
  Status, ok, incomplete, error, error_too_long, error_too_many_headers, Header, zero_header,
  Policy, max_header_line,
}

-- The variables of the loop: the header array, `count` and `pos`.
pub record Block : Type 0 where
  pub headers : List Header
  pub count : ℕ
  pub pos : ℕ

-- A return: `num_headers` and `block_end` are `none` where the code leaves them as they were.
pub record BlockReturn : Type 0 where
  pub status : Status
  pub headers : List Header
  pub num_headers : Option ℕ
  pub block_end : Option ℕ

pub data LineStep : Type 0 where
  next_line : Block → LineStep
  return_with : BlockReturn → LineStep

abbrev pub failed : Block → Status → LineStep
failed b status =
    return_with
      (record { status = status; headers = b.headers; num_headers = none; block_end = none })

abbrev pub stopped : Block → Status → ℕ → BlockReturn
stopped b status block_end = record {
  status = status;
  headers = b.headers;
  num_headers = some b.count;
  block_end = some block_end;
}

-- An obs-fold line: the value of the last header grows up to its end.
pub continuation_line : ℕ → Bytes → Block → ℕ → ℕ → LineStep
continuation_line base text b line_len line_ending_len =
    let last = get_or b.headers (b.count - 1) zero_header in
    let grown = record last { value_len = base + b.pos + line_len - last.value } in
    if b.count == 0
    then failed b error
    else if field_text_is_valid text
    then next_line (record b {
      headers = set b.headers (b.count - 1) grown;
      pos = b.pos + (line_len + line_ending_len);
    })
    else failed b error

-- A field line.
pub field_line : ℕ → ℕ → Bytes → Block → ℕ → ℕ → LineStep
field_line base max_headers text b line_len line_ending_len = elim (find_header_name_colon text) [
  | none ↦ failed b error
  | some colon_offset ↦
      if leb max_headers b.count
      then failed b error_too_many_headers
      else let old = get_or b.headers b.count zero_header in
        let named = record old { name = base + b.pos; name_len = colon_offset } in
        let value = trim_and_validate_field_value (drop (colon_offset + 1) text) in
        let whole = record named {
          value = base + b.pos + (colon_offset + 1) + value.start;
          value_len = value.len;
        } in
        if value.valid
        then next_line (record {
          headers = set b.headers b.count whole;
          count = b.count + 1;
          pos = b.pos + (line_len + line_ending_len);
        })
        else failed (record b { headers = set b.headers b.count named }) error
]

-- A line whose end was found, without its ending.
pub complete_line : ℕ → ℕ → Bytes → Block → Bool → ℕ → ℕ → LineStep
unfolding continuation_line field_line
complete_line base max_headers text b is_continuation line_len line_ending_len =
    if ltb max_header_line line_len
    then failed b error_too_long
    else if line_len == 0
    then return_with (stopped b ok (b.pos + line_ending_len))
    else if is_continuation
    then continuation_line base text b line_len line_ending_len
    else field_line base max_headers text b line_len line_ending_len

-- What `find_line_end` told of the bytes `rest` from `pos` on.
pub line_found : ℕ → ℕ → Bytes → Block → Bool → LineEnd → LineStep
unfolding complete_line
line_found base max_headers rest b is_continuation (no_line incomplete) =
    if ltb max_header_line (length rest)
    then failed b error_too_long
    else return_with (stopped b incomplete b.pos)
line_found base max_headers rest b is_continuation (no_line status) = failed b status
line_found base max_headers rest b is_continuation (line line_len line_ending_len) =
    complete_line base max_headers (take line_len rest) b is_continuation line_len line_ending_len

-- One round of the loop, at the bytes from `pos` on.
pub header_line : ℕ → ℕ → Policy → Bytes → Block → LineStep
unfolding line_found
header_line base max_headers policy rest b =
    let is_continuation = is_lws (get_or rest 0 0) in
    if policy.reject_obs_fold && is_continuation
    then failed b error
    else line_found base max_headers rest b is_continuation (find_line_end rest policy)

-- `none` means that the fuel ran out.
pub block_loop : ℕ → ℕ → ℕ → Policy → Bytes → Block → Option BlockReturn
unfolding header_line
block_loop zero base max_headers policy buf b = none
block_loop (suc fuel) base max_headers policy buf b = elim (ltb b.pos (length buf)) [
  | true ↦ elim (header_line base max_headers policy (drop b.pos buf) b) [
    | next_line b' ↦ block_loop fuel base max_headers policy buf b'
    | return_with r ↦ some r
  ]
  | false ↦ some (stopped b incomplete b.pos)
]

-- Each round passes a byte at least.
unfoldable pub parse_header_block : ℕ → Bytes → List Header → ℕ → ℕ → Policy → Option BlockReturn
unfolding block_loop
parse_header_block base buf headers initial_count max_headers policy =
    block_loop (length buf + 1) base max_headers policy buf
      (record { headers = headers; count = initial_count; pos = 0 })
