-- ===== src/Parser/Headers/Shift.antt =====
-- `parse_header_block` of src/ihtp_parser.c called again at a later place of the same input.
use iohttpparser.Base.{
  ℕ, zero, suc, ◌+◌, ◌≡◌, refl, sym, arith, Bool, true, false, ◌&&◌, Option, none, some, Bytes, leb,
  ltb, ◌==◌, if◌then◌else◌, length, get_or, take, drop, length-drop, drop-drop, Bool-cases,
  Option-cases, inl, inr,
}
use iohttpparser.Chars.{is_lws}
use iohttpparser.Parser.Headers.{
  Block, BlockReturn, LineStep, next_line, return_with, continuation_line, field_line,
  complete_line, line_found, header_line, block_loop,
}
use iohttpparser.Parser.Line.{
  LineEnd, line, no_line, find_line_end, find_header_name_colon, trim_and_validate_field_value,
}
use iohttpparser.Parser.Text.{field_text_is_valid}
use iohttpparser.Types.{
  ok, incomplete, error, error_too_long, error_too_many_headers, Policy, max_header_line,
}

abbrev pub later_block : ℕ → Block → Block
later_block e b = record b { pos = e + b.pos }

abbrev pub later_end : ℕ → Option ℕ → Option ℕ
later_end e none = none
later_end e (some n) = some (e + n)

-- A return with `block_end` counted from `e` bytes before.
abbrev pub later_return : ℕ → BlockReturn → BlockReturn
later_return e r = record r { block_end = later_end e r.block_end }

abbrev pub later_result : ℕ → Option BlockReturn → Option BlockReturn
later_result e none = none
later_result e (some r) = some (later_return e r)

abbrev later_step : ℕ → LineStep → LineStep
later_step e (next_line b) = next_line (later_block e b)
later_step e (return_with r) = return_with (later_return e r)

-- `s` is `t` with its positions counted from `e` bytes before.
record Later (e : ℕ) (s t : LineStep) : Type 0 where
  same : s ≡ later_step e t

later : {e : ℕ} {s t : LineStep} → s ≡ later_step e t → Later e s t
later same = record { same = same }

if_later :
    {e : ℕ} {a b c d : LineStep} (test : Bool)
    → Later e a c
    → Later e b d
    → Later e (if test then a else b) (if test then c else d)
if_later true p q = p
if_later false p q = q

module _ (base e max_headers : ℕ) (b : Block) (line_len ending : ℕ) where
  place : base + (e + b.pos) ≡ base + e + b.pos
  place = omega arith

  next_pos : (e + b.pos) + (line_len + ending) ≡ e + (b.pos + (line_len + ending))
  next_pos = omega arith

  continuation_line_later :
      (text : Bytes)
      → Later e
          (continuation_line base text (later_block e b) line_len ending)
          (continuation_line (base + e) text b line_len ending)
  unfolding continuation_line
  continuation_line_later text =
      if_later (b.count == 0) (later refl)
        (if_later (field_text_is_valid text) (later (rw (place, next_pos) refl)) (later refl))

  field_line_later :
      (text : Bytes)
      → Later e
          (field_line base max_headers text (later_block e b) line_len ending)
          (field_line (base + e) max_headers text b line_len ending)
  unfolding field_line
  field_line_later text = elim (Option-cases (find_header_name_colon text)) [
    | inl missing ↦ rw (missing, field_line) (later refl)
    | inr (colon, found) ↦
        rw (found, field_line, place, next_pos)
          (if_later (leb max_headers b.count) (later refl) (
            if_later (trim_and_validate_field_value (drop (colon + 1) text)).valid (later refl)
              (later refl)))
  ]

  complete_line_later :
      (text : Bytes) (is_continuation : Bool)
      → Later e
          (complete_line base max_headers text (later_block e b) is_continuation line_len ending)
          (complete_line (base + e) max_headers text b is_continuation line_len ending)
  unfolding complete_line
  complete_line_later text is_continuation =
      let block_end : (e + b.pos) + ending ≡ e + (b.pos + ending) = omega arith in
      if_later (ltb max_header_line line_len) (later refl) (
        if_later (line_len == 0) (later (rw block_end refl))
          (if_later is_continuation (continuation_line_later text) (field_line_later text)))

module _ (base e max_headers : ℕ) (policy : Policy) where
  header_line_later :
      (rest : Bytes) (b : Block)
      → Later e
          (header_line base max_headers policy rest (later_block e b))
          (header_line (base + e) max_headers policy rest b)
  unfolding header_line line_found
  header_line_later rest b =
      let fold = is_lws (get_or rest 0 0) in
      if_later (policy.reject_obs_fold && fold) (later refl)
        (found (find_line_end rest policy) fold)
    where
      found :
          (l : LineEnd) (fold : Bool)
          → Later e
              (line_found base max_headers rest (later_block e b) fold l)
              (line_found (base + e) max_headers rest b fold l)
      found (line n ending) fold =
          complete_line_later base e max_headers b n ending (take n rest) fold
      found (no_line incomplete) fold =
          if_later (ltb max_header_line (length rest)) (later refl) (later refl)
      found (no_line ok) fold = later refl
      found (no_line error) fold = later refl
      found (no_line error_too_long) fold = later refl
      found (no_line error_too_many_headers) fold = later refl

  -- The loop from `e` bytes on is the loop on those bytes.
  pub block_loop_later :
      (fuel : ℕ) (buf : Bytes) (b : Block)
      → block_loop fuel base max_headers policy buf (later_block e b)
        ≡ later_result e (block_loop fuel (base + e) max_headers policy (drop e buf) b)
  unfolding block_loop
  block_loop_later zero buf b = refl
  block_loop_later (suc fuel) buf b =
      let tests : ltb (e + b.pos) (length buf) ≡ ltb b.pos (length (drop e buf)) =
        ground (arith, length-drop e buf) in
      elim (Bool-cases (ltb b.pos (length (drop e buf)))) [
        | inr done ↦ rw (block_loop, tests, done) refl
        | inl more ↦
            let round = (header_line_later (drop b.pos (drop e buf)) b).same in
            rw (block_loop, tests, more, sym (drop-drop b.pos e buf), round)
              (by_step (header_line (base + e) max_headers policy (drop b.pos (drop e buf)) b)
                (block_loop_later fuel buf))
      ]
    where
      after : ℕ → Bytes → LineStep → Option BlockReturn
      after start text s = elim s [
        | next_line b' ↦ block_loop fuel start max_headers policy text b'
        | return_with r ↦ some r
      ]

      by_step :
          (s : LineStep)
          → ((b' : Block)
              → after base buf (next_line (later_block e b'))
                ≡ later_result e (after (base + e) (drop e buf) (next_line b')))
          → after base buf (later_step e s) ≡ later_result e (after (base + e) (drop e buf) s)
      by_step (next_line b') rest = rest b'
      by_step (return_with r) rest = refl
