-- ===== src/Parser/Print.antt =====
-- The request line of RFC 9112 section 3, as a printer, and the searches of src/ihtp_parser.c on
-- what it prints.
use iohttpparser.Base.{
  ℕ, ◌+◌, ◌-◌, ◌<◌, ◌≡◌, ◌≢◌, refl, ap, sym, ◌∙◌, append_assoc, arith, Bool, true, false, not, ◌&&◌,
  none, some, [], ◌∷◌, ◌++◌, Bytes, codes, ltb, ◌==◌, length, get_or, drop, drop_left, memchr,
  memrchr, length-append,
}
use iohttpparser.Chars.{is_token_char}
use iohttpparser.Parser.Line.{line, find_line_end, method_space_from, find_method_space}
use iohttpparser.Types.{HttpVersion, http_10, http_11, Policy}

abbrev pub version_text : HttpVersion → Bytes
version_text http_10 = codes "HTTP/1.0"
version_text http_11 = codes "HTTP/1.1"

abbrev pub print_line_end : Bytes → Bytes
print_line_end rest = b'\r' ∷ b'\n' ∷ rest

-- method SP request-target SP HTTP-version, without the line's end.
abbrev pub print_request_text : Bytes → Bytes → HttpVersion → Bytes
print_request_text method target version =
    method ++ (b' ' ∷ (target ++ (b' ' ∷ version_text version)))

abbrev pub AllToken : Bytes → Type 0
AllToken [] = Unit
AllToken (c ∷ cs) = (is_token_char c ≡ true) × AllToken cs

-- No byte `c`.
abbrev pub Without : ℕ → Bytes → Type 0
Without c [] = Unit
Without c (x ∷ xs) = (x ≢ c) × Without c xs

unfoldable pub is_without : ℕ → Bytes → Bool
is_without c [] = true
is_without c (x ∷ xs) = not (x == c) && is_without c xs

pub Without-check : (c : ℕ) (xs : Bytes) → is_without c xs ≡ true → Without c xs
unfolding is_without
Without-check c [] h = tt
Without-check c (x ∷ xs) h = (λ e. ground arith, Without-check c xs (ground arith))

pub Without-append : (c : ℕ) (xs ys : Bytes) → Without c xs → Without c ys → Without c (xs ++ ys)
Without-append c [] ys p q = q
Without-append c (x ∷ xs) ys p q = (p.0, Without-append c xs ys p.1 q)

pub AllToken-Without : (c : ℕ) (xs : Bytes) → is_token_char c ≡ false → AllToken xs → Without c xs
AllToken-Without c [] free all = tt
AllToken-Without c (x ∷ xs) free all = (
  λ e. let wrong : true ≡ false = sym all.0 ∙ ap is_token_char e ∙ free in absurd (cc),
  AllToken-Without c xs free all.1,
)

-- The first byte `c` stands behind bytes without it.
pub memchr_first :
    (c : ℕ) (xs ys : Bytes) → Without c xs → memchr c (xs ++ c ∷ ys) ≡ some (length xs)
unfolding memchr
memchr_first c [] ys free = ground arith
memchr_first c (x ∷ xs) ys free = ground (arith, memchr_first c xs ys free.1, free.0)

memrchr-none : (c : ℕ) (xs : Bytes) → Without c xs → memrchr c xs ≡ none
unfolding memrchr
memrchr-none c [] free = refl
memrchr-none c (x ∷ xs) free = ground (arith, memrchr-none c xs free.1, free.0)

pub memrchr_last :
    (c : ℕ) (xs ys : Bytes) → Without c ys → memrchr c (xs ++ c ∷ ys) ≡ some (length xs)
unfolding memrchr
memrchr_last c [] ys free = ground (arith, memrchr-none c ys free)
memrchr_last c (x ∷ xs) ys free = ground (arith, memrchr_last c xs ys free)

get_or_end : (xs ys : Bytes) (c : ℕ) → get_or (xs ++ c ∷ ys) (length xs) 0 ≡ c
get_or_end [] ys c = refl
get_or_end (x ∷ xs) ys c = get_or_end xs ys c

-- A line that ends in CRLF.
pub find_line_end-print_line_end :
    (text rest : Bytes) (policy : Policy)
    → Without b'\n' text
    → find_line_end (text ++ print_line_end rest) policy ≡ line (length text) 2
unfolding find_line_end
find_line_end-print_line_end text rest policy free =
    let around : (text ++ b'\r' ∷ []) ++ b'\n' ∷ rest ≡ text ++ print_line_end rest =
      append_assoc text (b'\r' ∷ []) (b'\n' ∷ rest) in
    let size : length (text ++ b'\r' ∷ []) ≡ length text + 1 = length-append text (b'\r' ∷ []) in
    let found : memchr b'\n' (text ++ print_line_end rest) ≡ some (length text + 1) =
      ap (memchr b'\n') (sym around)
      ∙ memchr_first b'\n' (text ++ b'\r' ∷ []) rest
          (Without-append b'\n' text (b'\r' ∷ []) free ((λ e. absurd (omega arith)), tt))
      ∙ ap (λ (n : ℕ). some n) size in
    let before : get_or (text ++ print_line_end rest) (length text) 0 ≡ b'\r' =
      get_or_end text (b'\n' ∷ rest) b'\r' in
    let positive : ltb 0 (length text + 1) ≡ true = ground arith in
    let back : length text + 1 - 1 ≡ length text = omega arith in
    rw (find_line_end, found, positive, back, before) refl

token_not_space : (c : ℕ) → is_token_char c ≡ true → c ≢ b' '
unfolding is_token_char
token_not_space c token e =
    let wrong : true ≡ is_token_char b' ' = sym token ∙ ap is_token_char e in absurd (cc)

method_space_lem :
    (i : ℕ) (method rest : Bytes)
    → AllToken method
    → 0 < i + length method
    → method_space_from i (method ++ b' ' ∷ rest) ≡ some (i + length method)
unfolding method_space_from
method_space_lem i [] rest all pos = ground arith
method_space_lem i (c ∷ cs) rest all pos =
    ground
      (arith, token_not_space c all.0, all.0, method_space_lem (i + 1) cs rest all.1 (omega arith))

pub find_method_space-print :
    (method rest : Bytes)
    → AllToken method
    → 0 < length method
    → find_method_space (method ++ b' ' ∷ rest) ≡ some (length method)
unfolding find_method_space
find_method_space-print method rest all pos =
    method_space_lem 0 method rest all (omega arith)
    ∙ ap (λ (n : ℕ). some n) {y = length method} (omega arith)

pub drop_behind : (xs ys : Bytes) (c : ℕ) → drop (length xs + 1) (xs ++ c ∷ ys) ≡ ys
drop_behind xs ys c =
    ap (drop (length xs + 1)) (sym (append_assoc xs (c ∷ []) ys))
    ∙ drop_left (xs ++ c ∷ []) ys (length xs + 1) (length-append xs (c ∷ []))

pub behind_line : (text rest : Bytes) → drop (length text + 2) (text ++ print_line_end rest) ≡ rest
behind_line text rest =
    ap (drop (length text + 2)) (sym (append_assoc text (b'\r' ∷ b'\n' ∷ []) rest))
    ∙ drop_left (text ++ b'\r' ∷ b'\n' ∷ []) rest (length text + 2)
        (length-append text (b'\r' ∷ b'\n' ∷ []))
