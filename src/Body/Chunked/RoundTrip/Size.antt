-- ===== src/Body/Chunked/RoundTrip/Size.antt =====
-- A printed chunk-size and its extension, in front of any `rest`
-- (src/ihtp_body_decoder.c, `CHUNK_SIZE` and `CHUNK_EXT`).
use iohttpparser.Base.{
  ℕ, ◌+◌, ◌*◌, ◌^◌, ◌≤◌, ◌<◌, ◌≡◌, refl, subst, arith, true, false, List, Option, none, some, [],
  ◌∷◌, ◌++◌, Bytes, length, ap, ◌∙◌, leb,
}
use iohttpparser.Body.Chunked.{
  chunk_size, chunk_ext, chunk_size_lf, chunk_data, chunk_done, ChunkedDecoder, is_hex_digit,
  hex_digit_to_u64, framing_byte, size_byte, ChunkState, consume,
}
use iohttpparser.Body.Chunked.Grammar.{
  HexDigit, digit_byte, print_digits, number_from, AllDigits, IsPlain, crlf, print_extension,
  IsExtension,
}
use iohttpparser.Body.Chunked.Invariant.{
  IsValid, FramingInv, framing_byte-IsValid, accumulate_exact,
}
use iohttpparser.Body.Chunked.Stream.{decode_stream, stream_step, after_byte}

digit_byte_lem :
    (g : HexDigit)
    → g.value < 16
    → (is_hex_digit (digit_byte g) ≡ true) × (hex_digit_to_u64 (digit_byte g) ≡ g.value)
unfolding hex_digit_to_u64
digit_byte_lem g h = ground arith

size_byte_digit_eq :
    (g : HexDigit) (d : ChunkedDecoder)
    → is_hex_digit (digit_byte g) ≡ true
    → hex_digit_to_u64 (digit_byte g) ≡ g.value
    → d.hex_count < 16
    → d.bytes_left_in_chunk * 16 + hex_digit_to_u64 (digit_byte g) < 2 ^ 64
    → size_byte d (digit_byte g)
      ≡ consume (record d {
        bytes_left_in_chunk = d.bytes_left_in_chunk * 16 + g.value;
        hex_count = d.hex_count + 1;
      })
unfolding size_byte
size_byte_digit_eq g d is_hex value_is room fits =
    let open_room : leb 16 d.hex_count ≡ false = ground arith in
    rw (is_hex, open_room, value_is)
      (ap (λ (n : ℕ). consume (record d { bytes_left_in_chunk = n; hex_count = d.hex_count + 1 }))
        (omega (arith, value_is)))

-- The decoder after the digits `gs` of a chunk-size.
abbrev pub after_digits : List HexDigit → ChunkedDecoder → ChunkedDecoder
after_digits gs d = record d {
  bytes_left_in_chunk = number_from d.bytes_left_in_chunk gs;
  hex_count = d.hex_count + length gs;
}

size_byte-digit :
    (g : HexDigit) (d : ChunkedDecoder)
    → g.value < 16
    → d.state ≡ chunk_size
    → IsValid d
    → d.hex_count < 16
    → size_byte d (digit_byte g) ≡ consume (after_digits (g ∷ []) d)
size_byte-digit g d small e v room =
    let (is_hex, value_is) = digit_byte_lem g small in
    let exact = accumulate_exact d (digit_byte g) e v room is_hex in
    size_byte_digit_eq g d is_hex value_is room exact.1

-- Reading one byte that a framing state consumes.
pub stream_consume :
    (s : ChunkState) (d d' : ChunkedDecoder) (c : ℕ) (cs : Bytes)
    → d.state ≡ s
    → framing_byte s d c ≡ consume d'
    → decode_stream d (c ∷ cs) ≡ decode_stream d' cs
unfolding decode_stream
stream_consume chunk_data d d' c cs e f = unfold framing_byte in cc
stream_consume chunk_done d d' c cs e f = unfold framing_byte in cc
stream_consume s d d' c cs e f =
    let rest = λ (d : ChunkedDecoder). decode_stream d cs in
    ap (λ t. stream_step t d c cs rest) e ∙ ap (after_byte d cs rest) f

pub stream_digits :
    (gs : List HexDigit) (rest : Bytes) (d : ChunkedDecoder)
    → AllDigits gs
    → d.state ≡ chunk_size
    → IsValid d
    → d.hex_count + length gs ≤ 16
    → decode_stream d (print_digits gs rest) ≡ decode_stream (after_digits gs d) rest
unfolding size_byte framing_byte
stream_digits [] rest d all e v few =
    ap (λ (k : ℕ). decode_stream (record d { hex_count = k }) rest) {x = d.hex_count} (omega arith)
stream_digits (g ∷ gs) rest d all e v few =
    let one = size_byte-digit g d all.0 e v (omega arith) in
    let d' = after_digits (g ∷ []) d in
    let v' : IsValid d' =
      subst FramingInv one (framing_byte-IsValid chunk_size d (digit_byte g) e v) in
    stream_consume chunk_size d d' (digit_byte g) (print_digits gs rest) e one
    ∙ stream_digits gs rest d' all.1 e v' (omega arith)
    ∙ ap (λ (k : ℕ). decode_stream (record (after_digits (g ∷ gs) d) { hex_count = k }) rest)
        (omega arith)

pub stream_plain :
    (cs rest : Bytes) (d : ChunkedDecoder)
    → IsPlain cs
    → d.state ≡ chunk_ext
    → decode_stream d (cs ++ rest) ≡ decode_stream d rest
unfolding framing_byte
stream_plain [] rest d plain e = refl
stream_plain (c ∷ cs) rest d plain e =
    stream_consume chunk_ext d d c (cs ++ rest) e (ground arith) ∙ stream_plain cs rest d plain.2 e

pub stream_extension :
    (x : Option Bytes) (rest : Bytes) (d : ChunkedDecoder)
    → IsExtension x
    → d.state ≡ chunk_size
    → 0 < d.hex_count
    → decode_stream d (print_extension x (crlf rest))
      ≡ decode_stream (record d { state = chunk_size_lf }) (b'\n' ∷ rest)
unfolding framing_byte
stream_extension none rest d plain e digits =
    stream_consume chunk_size d (record d { state = chunk_size_lf }) b'\r' (b'\n' ∷ rest) e
      (ground arith)
stream_extension (some x) rest d plain e digits =
    let d' = record d { state = chunk_ext } in
    stream_consume chunk_size d d' b';' (x ++ crlf rest) e (ground arith)
    ∙ stream_plain x (crlf rest) d' plain refl
    ∙ stream_consume chunk_ext d' (record d { state = chunk_size_lf }) b'\r' (b'\n' ∷ rest) refl
        (ground arith)
