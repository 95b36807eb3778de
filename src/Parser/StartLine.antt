-- ===== src/Parser/StartLine.antt =====
-- `parse_request_line` and `parse_status_line` of src/ihtp_parser.c. `base` is the offset of `buf`
-- in the whole input, to which the stored pointers refer.
pub mod Append
pub mod Bounds
pub mod AppendStatus
pub mod RoundTrip
use iohttpparser.Base.{
  ℕ, ◌+◌, ◌-◌, ◌*◌, Bool, not, ◌&&◌, ◌||◌, none, some, Bytes, codes, leb, ltb, ◌==◌, if◌then◌else◌,
  length, get_or, take, drop, bytes_eq,
}
use iohttpparser.Chars.{is_digit}
use iohttpparser.Parser.Line.{
  line, no_line, find_line_end, find_method_space, find_last_char_offset,
}
use iohttpparser.Parser.Method.{method_from_str}
use iohttpparser.Parser.Text.{request_target_is_valid, field_text_is_valid}
use iohttpparser.Types.{
  Status, ok, incomplete, error, error_too_long, http_10, http_11, Request, Response, Policy,
  max_request_line,
}

-- The status, the output record as far as it was written, and `*line_end`.
pub record RequestLine : Type 0 where
  pub status : Status
  pub req : Request
  pub line_end : ℕ

pub record StatusLine : Type 0 where
  pub status : Status
  pub resp : Response
  pub line_end : ℕ

abbrev pub failed_request : Request → Status → RequestLine
failed_request req status = record { status = status; req = req; line_end = 0 }

abbrev pub failed_response : Response → Status → StatusLine
failed_response resp status = record { status = status; resp = resp; line_end = 0 }

-- `memcmp(buf, "HTTP/1.", 7) == 0`
abbrev pub has_http_prefix : Bytes → Bool
has_http_prefix buf = bytes_eq (take 7 buf) (codes "HTTP/1.")

-- The HTTP-version, behind the last space.
pub request_version : Bytes → Request → ℕ → RequestLine
request_version ver req line_end =
    if not (length ver == 8) || not (has_http_prefix ver)
    then failed_request req error
    else if get_or ver 7 0 == b'1'
    then record { status = ok; req = record req { version = http_11 }; line_end = line_end }
    else if get_or ver 7 0 == b'0'
    then record { status = ok; req = record req { version = http_10 }; line_end = line_end }
    else failed_request req error

-- The request-target and what is behind it; `path_start` is what stands behind the method.
pub request_target : ℕ → Bytes → Request → Policy → ℕ → RequestLine
unfolding request_version
request_target base path_start req policy line_end = elim (find_last_char_offset path_start b' ') [
  | none ↦ failed_request req error
  | some sp2_offset ↦
      let req' = record req { path = base; path_len = sp2_offset } in
      if sp2_offset == 0
      then failed_request req' error
      else if request_target_is_valid (take sp2_offset path_start) policy.allow_spaces_in_uri
      then request_version (drop (sp2_offset + 1) path_start) req' line_end
      else failed_request req' error
]

-- The line without its ending.
pub request_line_text : ℕ → Bytes → Request → Policy → ℕ → RequestLine
unfolding request_target
request_line_text base text req policy line_end = elim (find_method_space text) [
  | none ↦ failed_request req error
  | some sp1_offset ↦
      let method_str = take sp1_offset text in
      let req' = record req {
        method_str = base;
        method_len = sp1_offset;
        method = method_from_str method_str;
      } in
      request_target (base + sp1_offset + 1) (drop (sp1_offset + 1) text) req' policy line_end
]

unfoldable pub parse_request_line : ℕ → Bytes → Request → Policy → RequestLine
unfolding request_line_text
parse_request_line base buf req policy = elim (find_line_end buf policy) [
  | no_line incomplete ↦
      failed_request req (if ltb max_request_line (length buf) then error_too_long else incomplete)
  | no_line status ↦ failed_request req status
  | line line_len line_ending_len ↦
      if ltb max_request_line line_len
      then failed_request req error_too_long
      else request_line_text base (take line_len buf) req policy (line_len + line_ending_len)
]

-- The three digits; the subtractions do not wrap behind the tests on the bytes.
pub status_code_of : Bytes → ℕ
status_code_of buf =
    (get_or buf 9 0 - b'0') * 100 + (get_or buf 10 0 - b'0') * 10 + (get_or buf 11 0 - b'0')

-- From the status code on.
pub status_line_code : ℕ → Bytes → Response → ℕ → ℕ → StatusLine
unfolding status_code_of
status_line_code base buf resp line_len line_ending_len =
    if not (is_digit (get_or buf 9 0))
      || not (is_digit (get_or buf 10 0))
      || not (is_digit (get_or buf 11 0))
    then failed_response resp error
    else let resp1 = record resp { status_code = status_code_of buf } in
      if ltb resp1.status_code 100 || ltb 599 resp1.status_code
      then failed_response resp1 error
      else if not (get_or buf 12 0 == b' ')
      then failed_response resp1 error
      else let reason_len = if ltb 13 line_len then line_len - 13 else 0 in
        let resp2 = record resp1 { reason = base + 13; reason_len = reason_len } in
        if ltb 13 line_len && not (field_text_is_valid (take reason_len (drop 13 buf)))
        then failed_response resp2 error
        else record { status = ok; resp = resp2; line_end = line_len + line_ending_len }

-- The bytes read stand in the line: it has 13 of them at least.
pub status_line_text : ℕ → Bytes → Response → ℕ → ℕ → StatusLine
unfolding status_line_code
status_line_text base buf resp line_len line_ending_len =
    if ltb line_len 13 || not (has_http_prefix buf)
    then failed_response resp error
    else let one = get_or buf 7 0 == b'1' in
      let resp' = record resp { version = if one then http_11 else http_10 } in
      if not (one || get_or buf 7 0 == b'0')
      then failed_response resp error
      else if not (get_or buf 8 0 == b' ')
      then failed_response resp' error
      else status_line_code base buf resp' line_len line_ending_len

unfoldable pub parse_status_line : ℕ → Bytes → Response → Policy → StatusLine
unfolding status_line_text
parse_status_line base buf resp policy = elim (find_line_end buf policy) [
  | no_line status ↦ failed_response resp status
  | line line_len line_ending_len ↦ status_line_text base buf resp line_len line_ending_len
]
