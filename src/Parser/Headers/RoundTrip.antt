-- ===== src/Parser/Headers/RoundTrip.antt =====
-- `parse_header_block` of src/ihtp_parser.c on printed header lines.
use iohttpparser.Base.{
  ℕ, zero, suc, ◌+◌, ◌-◌, ◌≤◌, ◌<◌, ◌≡◌, refl, ap, sym, ◌∙◌, arith, false, ◌&&◌, some, List, [],
  ◌∷◌, ◌++◌, Bytes, leb, ltb, ◌==◌, length, get_or, set, take, drop, append_assoc, length-append,
  length-drop, take_left, drop-drop,
}
use iohttpparser.Chars.{is_token_char, is_lws}
use iohttpparser.Parser.Headers.Resume.{run, run_next, run_return}
use iohttpparser.Parser.Headers.{
  Block, next_line, return_with, stopped, header_line, line_found, complete_line, field_line,
  parse_header_block,
}
use iohttpparser.Parser.Line.Print.{
  Field, print_field, IsField, AllLws-Without_lf, name_not_lws, find_header_name_colon-print,
  trim_and_validate-print,
}
use iohttpparser.Parser.Line.{trim_and_validate_field_value}
use iohttpparser.Parser.Print.{
  AllToken-Without, Without, Without-append, print_line_end, find_line_end-print_line_end,
  drop_behind, behind_line,
}
use iohttpparser.Types.{ok, Header, Policy, max_header_line}

abbrev pub print_fields : List Field → Bytes → Bytes
print_fields [] rest = rest
print_fields (f ∷ fs) rest = print_field f ++ print_line_end (print_fields fs rest)

abbrev pub AllFields : List Field → Type 0
AllFields [] = Unit
AllFields (f ∷ fs) = IsField f × (length (print_field f) ≤ max_header_line) × AllFields fs

-- The header that a printed line at `start` is stored as.
abbrev pub stored : ℕ → Field → Header
stored start f = record {
  name = start;
  name_len = length f.name;
  value = start + (length f.name + 1) + length f.ows;
  value_len = length f.value;
}

-- The block behind printed lines.
abbrev pub after : ℕ → Block → List Field → Block
after base b [] = b
after base b (f ∷ fs) =
    after base
      (record {
        headers = set b.headers b.count (stored (base + b.pos) f);
        count = b.count + 1;
        pos = b.pos + (length (print_field f) + 2);
      })
      fs

-- Printed lines are counted, and take up their length.
pub after_count :
    (base : ℕ) (b : Block) (fs : List Field) → (after base b fs).count ≡ b.count + length fs
after_count base b [] = omega arith
after_count base b (f ∷ fs) = after_count base (after base b (f ∷ [])) fs ∙ omega arith

pub after_pos :
    (base : ℕ) (b : Block) (fs : List Field) (rest : Bytes)
    → (after base b fs).pos + (2 + length rest)
      ≡ b.pos + length (print_fields fs (print_line_end rest))
after_pos base b [] rest = omega arith
after_pos base b (f ∷ fs) rest =
    let later = print_fields fs (print_line_end rest) in
    let size = length-append (print_field f) (print_line_end later) in
    after_pos base (after base b (f ∷ [])) fs rest ∙ omega (arith, size)

print_field-Without_lf : (f : Field) → IsField f → Without b'\n' (print_field f)
unfolding is_token_char
print_field-Without_lf f i =
    Without-append b'\n' f.name (b':' ∷ (f.ows ++ (f.value ++ f.tail)))
      (AllToken-Without b'\n' f.name refl i.token)
      (
        (cc),
        Without-append b'\n' f.ows (f.value ++ f.tail) (AllLws-Without_lf f.ows i.white) (
            Without-append b'\n' f.value f.tail i.one_line (AllLws-Without_lf f.tail i.tail_white)),
      )

module _ (base max_headers : ℕ) (policy : Policy) where
  -- One printed line.
  header_line-print :
      (f : Field) (b : Block) (rest : Bytes)
      → IsField f
      → length (print_field f) ≤ max_header_line
      → b.count < max_headers
      → header_line base max_headers policy (print_field f ++ print_line_end rest) b
        ≡ next_line (after base b (f ∷ []))
  unfolding header_line line_found complete_line field_line
  header_line-print f b rest i short room =
      let text = print_field f in
      let size : length text ≡ length f.name + (1 + length (f.ows ++ (f.value ++ f.tail))) =
        length-append f.name (b':' ∷ (f.ows ++ (f.value ++ f.tail)))
        ∙ ap (λ (n : ℕ). length f.name + n) (omega arith) in
      let plain : is_lws (get_or (text ++ print_line_end rest) 0 0) ≡ false =
        ap (λ buf. is_lws (get_or buf 0 0))
          (append_assoc f.name (b':' ∷ (f.ows ++ (f.value ++ f.tail))) (print_line_end rest))
        ∙ name_not_lws f.name ((b':' ∷ (f.ows ++ (f.value ++ f.tail))) ++ print_line_end rest)
            i.token i.some_name in
      let no_fold : (policy.reject_obs_fold && false) ≡ false = ground arith in
      let found = find_line_end-print_line_end text rest policy (print_field-Without_lf f i) in
      let front : take (length text) (text ++ print_line_end rest) ≡ text =
        take_left text (print_line_end rest) (length text) refl in
      let fits : ltb max_header_line (length text) ≡ false = ground arith in
      let not_empty : (length text == 0) ≡ false = ground (arith, size, i.some_name) in
      let colon =
        find_header_name_colon-print f.name (f.ows ++ (f.value ++ f.tail)) i.token i.some_name in
      let free : leb max_headers b.count ≡ false = ground arith in
      let behind : drop (length f.name + 1) text ≡ f.ows ++ (f.value ++ f.tail) =
        drop_behind f.name (f.ows ++ (f.value ++ f.tail)) b':' in
      let trim = ap trim_and_validate_field_value behind ∙ trim_and_validate-print f i in
      rw
        (
          header_line, plain, no_fold, found, fits, not_empty, field_line, front, colon, front,
          free, trim,
        )
        refl

  -- The blank line behind them.
  header_line-blank :
      (b : Block) (rest : Bytes)
      → header_line base max_headers policy (print_line_end rest) b
        ≡ return_with (stopped b ok (b.pos + 2))
  unfolding header_line is_lws
  header_line-blank b rest =
      let no_fold : (policy.reject_obs_fold && false) ≡ false = ground arith in
      let found = find_line_end-print_line_end [] rest policy tt in
      rw (header_line, no_fold, found) refl

  block_loop-print :
      (fuel : ℕ) (buf : Bytes) (b : Block) (fs : List Field) (rest : Bytes)
      → AllFields fs
      → b.count + length fs ≤ max_headers
      → drop b.pos buf ≡ print_fields fs (print_line_end rest)
      → length buf - b.pos < fuel
      → run base max_headers policy fuel buf b
        ≡ some (stopped (after base b fs) ok ((after base b fs).pos + 2))
  block_loop-print zero buf b fs rest all room here enough = absurd (omega arith)
  block_loop-print (suc fuel) buf b [] rest all room here enough =
      let size : length (drop b.pos buf) ≡ length (print_line_end rest) = ap length here in
      let more : b.pos < length buf = omega (arith, length-drop b.pos buf) in
      run_return base max_headers policy fuel buf b (stopped b ok (b.pos + 2)) more
        (ap (λ text. header_line base max_headers policy text b) here ∙ header_line-blank b rest)
  block_loop-print (suc fuel) buf b (f ∷ fs) rest all room here enough =
      let b' = after base b (f ∷ []) in
      let later = print_fields fs (print_line_end rest) in
      let size : length (drop b.pos buf) ≡ length (print_field f) + length (print_line_end later) =
        ap length here ∙ length-append (print_field f) (print_line_end later) in
      let more : b.pos < length buf = omega (arith, length-drop b.pos buf) in
      let next = header_line-print f b later all.0 all.1 (omega arith) in
      let there : drop b'.pos buf ≡ later =
        sym (drop-drop (length (print_field f) + 2) b.pos buf)
        ∙ ap (drop (length (print_field f) + 2)) here
        ∙ behind_line (print_field f) later in
      run_next base max_headers policy fuel buf b b' more
        (ap (λ text. header_line base max_headers policy text b) here ∙ next)
      ∙ block_loop-print fuel buf b' fs rest all.2 (omega arith) there (omega arith)

-- A header block that a sender prints by RFC 9112 section 5 (lines of a token, a colon, a value in
-- white space, CRLF, and the blank line) is read back: the call returns `OK`, stores for each line
-- the spans of its name and of its value without the white space around it, counts them, and tells
-- where the block ends. The lines are at most `IHTP_MAX_HEADER_LINE` long and there is room for
-- them.
pub parse_header_block-print :
    (base : ℕ) (fs : List Field) (rest : Bytes) (headers : List Header) (count max_headers : ℕ)
    (policy : Policy)
    → AllFields fs
    → count + length fs ≤ max_headers
    → let b = after base (record { headers = headers; count = count; pos = 0 }) fs in
      parse_header_block base
        (print_fields fs (print_line_end rest))
        headers
        count
        max_headers
        policy
      ≡ some (record {
        status = ok;
        headers = b.headers;
        num_headers = some b.count;
        block_end = some (b.pos + 2);
      })
unfolding parse_header_block
parse_header_block-print base fs rest headers count max_headers policy all room =
    let buf = print_fields fs (print_line_end rest) in
    block_loop-print base max_headers policy (length buf + 1) buf
      (record { headers = headers; count = count; pos = 0 }) fs rest all room refl (omega arith)
