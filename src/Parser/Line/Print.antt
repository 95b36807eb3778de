-- ===== src/Parser/Line/Print.antt =====
-- The field lines of RFC 9112 section 5, as a printer, and what src/ihtp_parser.c finds in them.
use iohttpparser.Base.{
  ℕ, zero, suc, ◌+◌, ◌-◌, ◌<◌, ◌≤◌, ltb, ◌&&◌, ◌≡◌, ◌≢◌, refl, ap, sym, ◌∙◌, arith, true, false,
  some, [], ◌∷◌, ◌++◌, Bytes, ◌==◌, length, get_or, take, drop, length-append, append-nil,
  get_or-append_left, ◌⊎◌, inl, inr, take_left, take-length, drop_left, dec_lt,
}
use iohttpparser.Chars.{is_token_char, is_lws}
use iohttpparser.Parser.Line.{
  find_header_name_colon, all_token_chars, count_leading_lws, trim_last,
  trim_and_validate_field_value,
}
use iohttpparser.Parser.Print.{AllToken, AllToken-Without, Without, memchr_first}
use iohttpparser.Parser.Text.{field_text_is_valid}

-- A field line: a name, a colon, white space, a value, white space.
pub record Field : Type 0 where
  pub name : Bytes
  pub ows : Bytes
  pub value : Bytes
  pub tail : Bytes

abbrev pub print_field : Field → Bytes
print_field f = f.name ++ (b':' ∷ (f.ows ++ (f.value ++ f.tail)))

abbrev pub AllLws : Bytes → Type 0
AllLws [] = Unit
AllLws (c ∷ cs) = (is_lws c ≡ true) × AllLws cs

-- The name is a token, the value has no white space at its ends and no byte that the parser forbids.
pub record IsField (f : Field) : Type 0 where
  pub token : AllToken f.name
  pub some_name : 0 < length f.name
  pub white : AllLws f.ows
  pub tail_white : AllLws f.tail
  pub tail_behind : (0 < length f.value) ⊎ (f.tail ≡ [])
  pub value_start : is_lws (get_or f.value 0 0) ≡ false
  pub value_end : is_lws (get_or f.value (length f.value - 1) 0) ≡ false
  pub value_text : field_text_is_valid f.value ≡ true
  pub one_line : Without b'\n' f.value

all_token_chars_lem : (xs : Bytes) → AllToken xs → all_token_chars xs ≡ true
unfolding all_token_chars
all_token_chars_lem [] all = refl
all_token_chars_lem (c ∷ cs) all = rw (all_token_chars, all.0) (all_token_chars_lem cs all.1)

pub find_header_name_colon-print :
    (name behind : Bytes)
    → AllToken name
    → 0 < length name
    → find_header_name_colon (name ++ b':' ∷ behind) ≡ some (length name)
unfolding find_header_name_colon is_token_char
find_header_name_colon-print name behind all pos =
    let found = memchr_first b':' name behind (AllToken-Without b':' name refl all) in
    let positive : (length name == 0) ≡ false = ground arith in
    let front : take (length name) (name ++ b':' ∷ behind) ≡ name =
      take_left name (b':' ∷ behind) (length name) refl in
    rw (find_header_name_colon, found, positive, front, all_token_chars_lem name all) refl

count_leading_lws_lem :
    (ows value : Bytes)
    → AllLws ows
    → is_lws (get_or value 0 0) ≡ false
    → count_leading_lws (ows ++ value) ≡ length ows
unfolding count_leading_lws
count_leading_lws_lem [] [] all start = refl
count_leading_lws_lem [] (c ∷ cs) all start = rw (count_leading_lws, start) refl
count_leading_lws_lem (c ∷ cs) value all start =
    rw (count_leading_lws, all.0) (ap suc (count_leading_lws_lem cs value all.1 start))

pub get_or_right : (xs ys : Bytes) (i : ℕ) → get_or (xs ++ ys) (length xs + i) 0 ≡ get_or ys i 0
get_or_right [] ys i = ap (λ (k : ℕ). get_or ys k 0) {y = i} (omega arith)
get_or_right (x ∷ xs) ys i =
    ap (λ (k : ℕ). get_or (x ∷ (xs ++ ys)) k 0) {y = suc (length xs + i)} (omega arith)
    ∙ get_or_right xs ys i

trim_last_lem :
    (buf : Bytes) (first n : ℕ)
    → 0 < n
    → is_lws (get_or buf (n - 1) 0) ≡ false
    → trim_last buf first n ≡ n
unfolding trim_last
trim_last_lem buf first zero pos stop = absurd (omega arith)
trim_last_lem buf first (suc n) pos stop =
    let same : is_lws (get_or buf n 0) ≡ false =
      ap (λ (k : ℕ). is_lws (get_or buf k 0)) {y = suc n - 1} (omega arith) ∙ stop in
    rw (trim_last, same) (ground arith)

trim_front :
    (f : Field)
    → IsField f
    → trim_and_validate_field_value (f.ows ++ f.value)
      ≡ record { start = length f.ows; len = length f.value; valid = true }
unfolding trim_and_validate_field_value
trim_front f i =
    let buf = f.ows ++ f.value in
    let size : length buf ≡ length f.ows + length f.value = length-append f.ows f.value in
    let first = count_leading_lws_lem f.ows f.value i.white i.value_start in
    elim (dec_lt 0 (length f.value)) [
      | no empty ↦
          let none_left : length f.value ≡ 0 = omega arith in
          let whole : length buf ≡ length f.ows = omega arith in
          let same : (length f.ows == length f.ows) ≡ true = ground arith in
          rw (trim_and_validate_field_value, first, whole, same, none_left) refl
      | yes more ↦
          let differ : (length f.ows == length f.ows + length f.value) ≡ false = ground arith in
          let stop : is_lws (get_or buf (length f.ows + length f.value - 1) 0) ≡ false =
            ap (λ (k : ℕ). is_lws (get_or buf k 0)) {y = length f.ows + (length f.value - 1)}
              (omega arith)
            ∙ ap is_lws (get_or_right f.ows f.value (length f.value - 1))
            ∙ i.value_end in
          let last =
            trim_last_lem buf (length f.ows) (length f.ows + length f.value) (omega arith) stop in
          let cut : length f.ows + length f.value - length f.ows ≡ length f.value = omega arith in
          let behind : drop (length f.ows) buf ≡ f.value =
            drop_left f.ows f.value (length f.ows) refl in
          let all : take (length f.value) f.value ≡ f.value =
            take-length f.value (length f.value) (omega arith) in
          rw
            (
              trim_and_validate_field_value, first, size, differ, last, cut, behind, all,
              i.value_text,
            )
            refl
    ]

pub white_at : (xs : Bytes) (j : ℕ) → AllLws xs → j < length xs → is_lws (get_or xs j 0) ≡ true
white_at [] j all inside = absurd (omega arith)
white_at (x ∷ xs) zero all inside = all.0
white_at (x ∷ xs) (suc j) all inside = white_at xs j all.1 (omega arith)

-- White space at the end is passed over.
trim_tail_lem :
    (buf : Bytes) (first n k : ℕ)
    → first ≤ n
    → ((j : ℕ) → j < k → is_lws (get_or buf (n + j) 0) ≡ true)
    → trim_last buf first (n + k) ≡ trim_last buf first n
unfolding trim_last
trim_tail_lem buf first n zero le white =
    ap (λ (m : ℕ). trim_last buf first m) {x = n + 0} {y = n} (omega arith)
trim_tail_lem buf first n (suc k) le white =
    let test : (ltb first (suc (n + k)) && is_lws (get_or buf (n + k) 0)) ≡ true =
      ground (arith, white k (omega arith)) in
    ap (λ (m : ℕ). trim_last buf first m) {x = n + suc k} {y = suc (n + k)} (omega arith)
    ∙ rw (trim_last, test) (trim_tail_lem buf first n k le (λ j lt. white j (omega arith)))

trim_both :
    (f : Field)
    → IsField f
    → 0 < length f.value
    → trim_and_validate_field_value (f.ows ++ (f.value ++ f.tail))
      ≡ record { start = length f.ows; len = length f.value; valid = true }
unfolding trim_and_validate_field_value
trim_both f i more =
    let text = f.value ++ f.tail in
    let buf = f.ows ++ text in
    let n = length f.ows + length f.value in
    let size : length buf ≡ n + length f.tail =
      omega (arith, length-append f.ows text, length-append f.value f.tail) in
    let start : is_lws (get_or text 0 0) ≡ false =
      ap is_lws (get_or-append_left f.value f.tail 0 0 (omega arith)) ∙ i.value_start in
    let first = count_leading_lws_lem f.ows text i.white start in
    let differ : (length f.ows == n + length f.tail) ≡ false = ground arith in
    let white : (j : ℕ) → j < length f.tail → is_lws (get_or buf (n + j) 0) ≡ true = λ j lt.
      ap (λ (k : ℕ). is_lws (get_or buf k 0)) {y = length f.ows + (length f.value + j)}
        (omega arith)
      ∙ ap is_lws (get_or_right f.ows text (length f.value + j) ∙ get_or_right f.value f.tail j)
      ∙ white_at f.tail j i.tail_white lt in
    let stop : is_lws (get_or buf (n - 1) 0) ≡ false =
      ap (λ (k : ℕ). is_lws (get_or buf k 0)) {y = length f.ows + (length f.value - 1)}
        (omega arith)
      ∙ ap is_lws (
          get_or_right f.ows text (length f.value - 1)
          ∙ get_or-append_left f.value f.tail (length f.value - 1) 0 (omega arith))
      ∙ i.value_end in
    let last : trim_last buf (length f.ows) (n + length f.tail) ≡ n =
      trim_tail_lem buf (length f.ows) n (length f.tail) (omega arith) white
      ∙ trim_last_lem buf (length f.ows) n (omega arith) stop in
    let cut : n - length f.ows ≡ length f.value = omega arith in
    let behind : drop (length f.ows) buf ≡ text = drop_left f.ows text (length f.ows) refl in
    let front : take (length f.value) text ≡ f.value =
      take_left f.value f.tail (length f.value) refl in
    rw (trim_and_validate_field_value, first, size, differ, last, cut, behind, front, i.value_text)
      refl

-- The white space around the value is cut off, and nothing else.
pub trim_and_validate-print :
    (f : Field)
    → IsField f
    → trim_and_validate_field_value (f.ows ++ (f.value ++ f.tail))
      ≡ record { start = length f.ows; len = length f.value; valid = true }
trim_and_validate-print f i = elim i.tail_behind [
  | inl more ↦ trim_both f i more
  | inr none_behind ↦
      ap (λ t. trim_and_validate_field_value (f.ows ++ (f.value ++ t))) none_behind
      ∙ ap (λ v. trim_and_validate_field_value (f.ows ++ v)) (append-nil f.value)
      ∙ trim_front f i
]

pub AllLws-Without_lf : (xs : Bytes) → AllLws xs → Without b'\n' xs
unfolding is_lws
AllLws-Without_lf [] all = tt
AllLws-Without_lf (c ∷ cs) all = (λ e. ground (arith, all.0), AllLws-Without_lf cs all.1)

token_not : (c d : ℕ) → is_token_char d ≡ false → is_token_char c ≡ true → c ≢ d
token_not c d other token e =
    let wrong : true ≡ false = sym token ∙ ap is_token_char e ∙ other in absurd (cc)

not_lws : (c : ℕ) → c ≢ b' ' → c ≢ b'\t' → is_lws c ≡ false
unfolding is_lws
not_lws c no_space no_tab = ground arith

pub name_not_lws :
    (name behind : Bytes)
    → AllToken name
    → 0 < length name
    → is_lws (get_or (name ++ behind) 0 0) ≡ false
unfolding is_token_char
name_not_lws [] behind all pos = absurd (omega arith)
name_not_lws (c ∷ cs) behind all pos =
    not_lws c (token_not c b' ' refl all.0) (token_not c b'\t' refl all.0)
