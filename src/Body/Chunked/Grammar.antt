-- ===== src/Body/Chunked/Grammar.antt =====
-- The chunked bodies of RFC 9112 section 7.1, as a printer: what a sender writes.
-- `ihtp_decode_chunked` of src/ihtp_body_decoder.c reads this format.
use iohttpparser.Base.{
  ℕ, ◌+◌, ◌-◌, ◌*◌, ◌≤◌, ◌<◌, ◌≡◌, ◌≢◌, Bool, List, [], ◌∷◌, ◌++◌, Option, none, some, Bytes,
  length, ltb, if◌then◌else◌,
}

-- A hexadecimal digit, in either case.
pub record HexDigit : Type 0 where
  pub upper : Bool
  pub value : ℕ

abbrev pub digit_byte : HexDigit → ℕ
digit_byte g =
    if ltb g.value 10
    then b'0' + g.value
    else if g.upper
    then b'A' + (g.value - 10)
    else b'a' + (g.value - 10)

abbrev pub print_digits : List HexDigit → Bytes → Bytes
print_digits [] rest = rest
print_digits (g ∷ gs) rest = digit_byte g ∷ print_digits gs rest

-- The number that digits stand for, behind digits that stand for `acc`.
abbrev pub number_from : ℕ → List HexDigit → ℕ
number_from acc [] = acc
number_from acc (g ∷ gs) = number_from (acc * 16 + g.value) gs

abbrev pub AllDigits : List HexDigit → Type 0
AllDigits [] = Unit
AllDigits (g ∷ gs) = (g.value < 16) × AllDigits gs

-- No CR and no LF.
abbrev pub IsPlain : Bytes → Type 0
IsPlain [] = Unit
IsPlain (c ∷ cs) = (c ≢ b'\r') × (c ≢ b'\n') × IsPlain cs

abbrev pub crlf : Bytes → Bytes
crlf rest = b'\r' ∷ b'\n' ∷ rest

-- A chunk-size with its extension; the extension is what stands behind the semicolon.
pub record SizeLine : Type 0 where
  pub digits : List HexDigit
  pub extension : Option Bytes

abbrev pub print_extension : Option Bytes → Bytes → Bytes
print_extension none rest = rest
print_extension (some e) rest = b';' ∷ (e ++ rest)

abbrev pub print_size : SizeLine → Bytes → Bytes
print_size s rest = print_digits s.digits (print_extension s.extension (crlf rest))

abbrev pub IsExtension : Option Bytes → Type 0
IsExtension none = Unit
IsExtension (some e) = IsPlain e

-- One to sixteen digits that stand for `n`.
pub record IsSize (s : SizeLine) (n : ℕ) : Type 0 where
  pub all_digits : AllDigits s.digits
  pub some_digit : 0 < length s.digits
  pub few_digits : length s.digits ≤ 16
  pub stands_for : number_from 0 s.digits ≡ n
  pub plain : IsExtension s.extension

pub record Chunk : Type 0 where
  pub size : SizeLine
  pub content : Bytes

abbrev pub print_chunks : List Chunk → Bytes → Bytes
print_chunks [] rest = rest
print_chunks (k ∷ ks) rest = print_size k.size (k.content ++ crlf (print_chunks ks rest))

abbrev pub AllChunks : List Chunk → Type 0
AllChunks [] = Unit
AllChunks (k ∷ ks) = IsSize k.size (length k.content) × (0 < length k.content) × AllChunks ks

abbrev pub contents : List Chunk → Bytes
contents [] = []
contents (k ∷ ks) = k.content ++ contents ks

-- Trailer lines are not empty, or the first of them would end the section.
abbrev pub print_trailers : List Bytes → Bytes → Bytes
print_trailers [] rest = crlf rest
print_trailers (t ∷ ts) rest = t ++ crlf (print_trailers ts rest)

abbrev pub AllTrailers : List Bytes → Type 0
AllTrailers [] = Unit
AllTrailers (t ∷ ts) = IsPlain t × (0 < length t) × AllTrailers ts

-- A whole body: chunks, the last chunk with size zero, the trailer section.
abbrev pub print_body : List Chunk → SizeLine → List Bytes → Bytes → Bytes
print_body ks last ts rest = print_chunks ks (print_size last (print_trailers ts rest))
