-- ===== src/Scanner/Tokens.antt =====
-- The token table of src/ihtp_scanner_scalar.c against the grammar of RFC 9110 section 5.6.2.
use iohttpparser.Base.{
  ℕ, ◌≡◌, ◌<◌, refl, arith, Bool, true, false, ◌&&◌, ◌||◌, [], ◌∷◌, Bytes, leb, codes,
  if◌then◌else◌,
}
use iohttpparser.Base.Bits.{every_under, every_under_lem}
use iohttpparser.Chars.{is_token_char}
use iohttpparser.Scanner.Backends.{AllBytes}
use iohttpparser.Scanner.{is_token_scalar, contains}

-- tchar: fifteen marks, the digits, the letters.
abbrev pub tchar_marks : Bytes
tchar_marks = codes "!#$%&'*+-.^_`|~"

abbrev pub is_tchar : ℕ → Bool
is_tchar c =
    contains tchar_marks c
    || (leb b'0' c && leb c b'9')
    || (leb b'A' c && leb c b'Z')
    || (leb b'a' c && leb c b'z')

abbrev same : Bool → Bool → Bool
same true b = b
same false b = if b then false else true

same→eq : (a b : Bool) → same a b ≡ true → a ≡ b
same→eq a b h = ground arith

token_table_check : every_under (λ c. same (is_token_char c) (is_tchar c)) 256 ≡ true
unfolding every_under is_token_char contains
token_table_check = refl

-- The table marks exactly the bytes that the grammar calls tchar.
pub is_token_char-is_tchar : (c : ℕ) → c < 256 → is_token_char c ≡ is_tchar c
is_token_char-is_tchar c h =
    same→eq (is_token_char c) (is_tchar c)
      (every_under_lem (λ c. same (is_token_char c) (is_tchar c)) 256 c h token_table_check)

abbrev pub all_tchar : Bytes → Bool
all_tchar [] = true
all_tchar (c ∷ cs) = is_tchar c && all_tchar cs

pub is_token_scalar-all_tchar : (buf : Bytes) → AllBytes buf → is_token_scalar buf ≡ all_tchar buf
unfolding is_token_scalar
is_token_scalar-all_tchar [] bytes = refl
is_token_scalar-all_tchar (c ∷ cs) bytes =
    rw (is_token_char-is_tchar c bytes.0, is_token_scalar-all_tchar cs bytes.1)
