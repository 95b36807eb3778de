-- ===== src/Semantics/Fields.antt =====
-- The field value parsers of src/ihtp_semantics.c. A value is the list of its bytes; `none` is the
-- return of `false`, before which the code writes nothing that a caller reads.
-- The scanner's token test is the parameter `is_token`, the one that `ihtp_scanner_get` selects.
pub mod Decimal
pub mod Parts
pub mod Lists
pub mod Codings
use iohttpparser.Base.{
  ℕ, zero, suc, ◌+◌, ◌-◌, ◌*◌, ◌/◌, ◌^◌, Bool, true, false, not, ◌&&◌, ◌||◌, Option, none, some, [],
  ◌∷◌, Bytes, codes, leb, ltb, ◌==◌, if◌then◌else◌, length, get_or, take, drop, memchr,
}
use iohttpparser.Chars.{is_digit, is_lws}

-- ASCII letters to lower case.
abbrev pub lower : ℕ → ℕ
lower c = if leb b'A' c && leb c b'Z' then c + (b'a' - b'A') else c

-- Of texts with the same length.
unfoldable pub same_ignore_case : Bytes → Bytes → Bool
same_ignore_case [] lit = true
same_ignore_case (a ∷ buf) [] = true
same_ignore_case (a ∷ buf) (b ∷ lit) = lower a == lower b && same_ignore_case buf lit

unfoldable pub bytes_eq_ignore_case : Bytes → Bytes → Bool
unfolding same_ignore_case
bytes_eq_ignore_case buf lit = length buf == length lit && same_ignore_case buf lit

abbrev pub uint64_max : ℕ
uint64_max = 2 ^ 64 - 1

-- The loop of `parse_content_length`, with the number so far.
pub content_length_from : ℕ → Bytes → Option ℕ
content_length_from result [] = some result
content_length_from result (c ∷ cs) =
    let digit = c - b'0' in
    let rest = content_length_from (result * 10 + digit) cs in
    if not (is_digit c) then none else if ltb ((uint64_max - digit) / 10) result then none else rest

unfoldable pub parse_content_length : Bytes → Option ℕ
unfolding content_length_from
parse_content_length [] = none
parse_content_length (c ∷ cs) = content_length_from 0 (c ∷ cs)

-- `while (part_len > 0 && ihtp_is_lws(*part)) part++, part_len--`
pub skip_lws : Bytes → Bytes
skip_lws [] = []
skip_lws (c ∷ cs) = if is_lws c then skip_lws cs else c ∷ cs

-- `while (part_len > 0 && ihtp_is_lws(part[part_len - 1])) part_len--`
pub trimmed_len : Bytes → ℕ → ℕ
trimmed_len part zero = 0
trimmed_len part (suc n) =
    let shorter = trimmed_len part n in if is_lws (get_or part n 0) then shorter else suc n

pub trim_end : Bytes → Bytes
unfolding trimmed_len
trim_end part = take (trimmed_len part (length part)) part

pub trim_part : Bytes → Bytes
unfolding skip_lws trim_end
trim_part part = trim_end (skip_lws part)

-- `while (pos < len && value[pos] != ',') pos++`
pub up_to_comma : Bytes → Bytes
up_to_comma [] = []
up_to_comma (c ∷ cs) = if c == b',' then [] else c ∷ up_to_comma cs

-- The loop that the three list parsers share: `step` is told each part of the value, without the
-- white space around it. With no fuel left the answer is `none`.
module _ {S : Type 0} (step : S → Bytes → Option S) where
  pub for_each_part : ℕ → S → Bytes → Option S
  for_each_part zero s value = none
  for_each_part (suc fuel) s [] = some s
  for_each_part (suc fuel) s (c ∷ cs) =
      let part = up_to_comma (c ∷ cs) in
      let later = λ (s' : S). for_each_part fuel s' (drop (length part + 1) (c ∷ cs)) in
      elim (step s (trim_part part)) [
        | none ↦ none
        | some s' ↦ elim (drop (length part) (c ∷ cs)) [
          | [] ↦ some s'
          | comma ∷ [] ↦ none
          | comma ∷ after ↦ later s'
        ]
      ]

  pub parse_parts : S → Bytes → Option S
  unfolding for_each_part up_to_comma trim_part
  parse_parts s value = for_each_part (length value + 1) s value

pub record TransferEncoding : Type 0 where
  pub saw_coding : Bool
  pub final_chunked : Bool
  pub chunked_count : ℕ

-- `*has_close`, `*has_keep_alive` and `*has_upgrade`, which the call only sets.
pub record ConnectionFlags : Type 0 where
  pub close : Bool
  pub keep_alive : Bool
  pub upgrade : Bool

module _ (is_token : Bytes → Bool) where
  -- The coding without its parameters, and whether it has any; `none` if nothing is before them.
  pub coding_of : Bytes → Option (Bytes × Bool)
  coding_of part = elim (memchr b';' part) [
    | none ↦ some (part, false)
    | some params ↦
        let coding = trim_end (take params part) in
        if length coding == 0 then none else some (coding, true)
  ]

  -- One part of a Transfer-Encoding value.
  pub coding_step : TransferEncoding → Bytes → Option TransferEncoding
  unfolding coding_of
  coding_step t [] = none
  coding_step t (c ∷ cs) = elim (coding_of (c ∷ cs)) [
    | none ↦ none
    | some (coding, has_params) ↦
        let chunked = bytes_eq_ignore_case coding (codes "chunked") in
        if not (is_token coding)
        then none
        else if chunked && has_params
        then none
        else some (record {
          saw_coding = true;
          final_chunked = chunked;
          chunked_count = if chunked then t.chunked_count + 1 else t.chunked_count;
        })
  ]

  -- `*ends_with_chunked` and `*chunked_count`.
  unfoldable pub parse_transfer_encoding : Bytes → Option (Bool × ℕ)
  unfolding parse_parts coding_step bytes_eq_ignore_case
  parse_transfer_encoding value =
      let start : TransferEncoding = record {
        saw_coding = false;
        final_chunked = false;
        chunked_count = 0;
      } in
      elim (parse_parts coding_step start value) [
        | none ↦ none
        | some t ↦ if t.saw_coding then some (t.final_chunked, t.chunked_count) else none
      ]

  -- One part of a Connection value; the flag beside the others is `saw_token`.
  pub connection_step : ConnectionFlags × Bool → Bytes → Option (ConnectionFlags × Bool)
  connection_step (f, saw) part =
      if length part == 0 || not (is_token part)
      then none
      else if bytes_eq_ignore_case part (codes "close")
      then some (record f { close = true }, true)
      else if bytes_eq_ignore_case part (codes "keep-alive")
      then some (record f { keep_alive = true }, true)
      else if bytes_eq_ignore_case part (codes "upgrade")
      then some (record f { upgrade = true }, true)
      else some (f, true)

  unfoldable pub parse_connection_header : Bytes → ConnectionFlags → Option ConnectionFlags
  unfolding parse_parts connection_step bytes_eq_ignore_case
  parse_connection_header value flags = elim (parse_parts connection_step (flags, false) value) [
    | none ↦ none
    | some (f, saw) ↦ if saw then some f else none
  ]

  pub trailer_step : Bool → Bytes → Option Bool
  trailer_step saw part = if length part == 0 || not (is_token part) then none else some true

  unfoldable pub parse_trailer_header : Bytes → Bool
  unfolding parse_parts trailer_step
  parse_trailer_header value = elim (parse_parts trailer_step false value) [
    | none ↦ false
    | some saw ↦ saw
  ]

-- `*expects_continue`
unfoldable pub parse_expect_header : Bytes → Option Bool
unfolding trim_part bytes_eq_ignore_case
parse_expect_header value =
    let part = trim_part value in
    if length part == 0 then none else some (bytes_eq_ignore_case part (codes "100-continue"))
