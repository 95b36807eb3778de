-- ===== src/Body/Chunked/RoundTrip/Chunks.antt =====
-- A printed chunk, and a list of them, in front of any `rest`.
use iohttpparser.Base.{
  ℕ, ◌+◌, ◌%◌, ◌^◌, ◌<◌, ◌≡◌, refl, sym, arith, Bool, List, [], ◌∷◌, ◌++◌, append_assoc, Bytes,
  length, ap, ◌∙◌,
}
use iohttpparser.Body.Chunked.{
  chunk_size, chunk_size_lf, chunk_data, chunk_data_cr, chunk_data_lf, ChunkedDecoder, framing_byte,
  take_bytes,
}
use iohttpparser.Body.Chunked.Grammar.{
  number_from, crlf, SizeLine, print_extension, print_size, IsSize, Chunk, print_chunks, AllChunks,
  contents,
}
use iohttpparser.Body.Chunked.Invariant.{IsValid}
use iohttpparser.Body.Chunked.Refinement.{decode_stream_data}
use iohttpparser.Body.Chunked.Stream.{decode_stream, prepend}
use iohttpparser.Body.Chunked.RoundTrip.Size.{
  stream_consume, after_digits, stream_digits, stream_extension,
}

-- The decoder in front of a chunk.
abbrev pub ready : Bool → ℕ → ChunkedDecoder
ready consume_trailer total = record {
  bytes_left_in_chunk = 0;
  total_decoded = total;
  hex_count = 0;
  state = chunk_size;
  consume_trailer = consume_trailer;
}

-- The decoder in front of the LF of a size line that says `n`.
abbrev pub sized : Bool → ℕ → SizeLine → ℕ → ChunkedDecoder
sized b total s n = record (ready b total) {
  bytes_left_in_chunk = n;
  hex_count = length s.digits;
  state = chunk_size_lf;
}

pub stream_size :
    (s : SizeLine) (n : ℕ) (rest : Bytes) (b : Bool) (total : ℕ)
    → IsSize s n
    → total < 2 ^ 64
    → decode_stream (ready b total) (print_size s rest)
      ≡ decode_stream (sized b total s n) (b'\n' ∷ rest)
stream_size s n rest b total size small =
    let v : IsValid (ready b total) = omega arith in
    let d = after_digits s.digits (ready b total) in
    stream_digits s.digits (print_extension s.extension (crlf rest)) (ready b total) size.all_digits
      refl v (omega (arith, size.few_digits))
    ∙ stream_extension s.extension rest d size.plain refl (omega (arith, size.some_digit))
    ∙ ap
        (λ (k : ℕ).
          decode_stream
            (record (sized b total s n) {
              bytes_left_in_chunk = number_from 0 s.digits;
              hex_count = k;
            })
            (b'\n' ∷ rest))
        (omega arith)
    ∙ ap (λ (m : ℕ). decode_stream (sized b total s m) (b'\n' ∷ rest)) size.stands_for

stream_content :
    (xs rest : Bytes) (count : ℕ) (b : Bool) (total : ℕ)
    → 0 < length xs
    → decode_stream
        (record (ready b total) {
          bytes_left_in_chunk = length xs;
          hex_count = count;
          state = chunk_data;
        })
        (xs ++ crlf rest)
      ≡ prepend xs (decode_stream (ready b ((total + length xs) % 2 ^ 64)) rest)
unfolding take_bytes framing_byte
stream_content xs rest count b total some_data =
    let total' = (total + length xs) % 2 ^ 64 in
    let d = record (ready b total) {
      bytes_left_in_chunk = length xs;
      hex_count = count;
      state = chunk_data;
    } in
    let done = record (ready b total') { hex_count = count; state = chunk_data_cr } in
    let taken : take_bytes d (length xs) ≡ done = ground arith in
    decode_stream_data xs (crlf rest) d refl some_data (omega arith)
    ∙ ap (λ d. prepend xs (decode_stream d (crlf rest))) taken
    ∙ ap (prepend xs) (
        stream_consume chunk_data_cr done (record done { state = chunk_data_lf }) b'\r'
          (b'\n' ∷ rest) refl refl
        ∙ stream_consume chunk_data_lf (record done { state = chunk_data_lf }) (ready b total')
            b'\n' rest refl refl)

stream_chunk :
    (k : Chunk) (rest : Bytes) (b : Bool) (total : ℕ)
    → IsSize k.size (length k.content)
    → 0 < length k.content
    → total < 2 ^ 64
    → decode_stream (ready b total) (print_size k.size (k.content ++ crlf rest))
      ≡ prepend k.content (decode_stream (ready b ((total + length k.content) % 2 ^ 64)) rest)
unfolding framing_byte
stream_chunk k rest b total size some_data small =
    let n = length k.content in
    stream_size k.size n (k.content ++ crlf rest) b total size small
    ∙ stream_consume chunk_size_lf (sized b total k.size n)
        (record (sized b total k.size n) { state = chunk_data }) b'\n' (k.content ++ crlf rest) refl
        (ground arith)
    ∙ stream_content k.content rest (length k.size.digits) b total some_data

-- The decoded total, modulo 2 ^ 64.
abbrev pub total_after : ℕ → List Chunk → ℕ
total_after total [] = total
total_after total (k ∷ ks) = total_after ((total + length k.content) % 2 ^ 64) ks

pub stream_chunks :
    (ks : List Chunk) (rest : Bytes) (b : Bool) (total : ℕ)
    → AllChunks ks
    → total < 2 ^ 64
    → (total_after total ks < 2 ^ 64)
      × (decode_stream (ready b total) (print_chunks ks rest)
          ≡ prepend (contents ks) (decode_stream (ready b (total_after total ks)) rest))
stream_chunks [] rest b total all small = (small, refl)
stream_chunks (k ∷ ks) rest b total all small =
    let total' = (total + length k.content) % 2 ^ 64 in
    let (small', later) = stream_chunks ks rest b total' all.2 (omega arith) in
    (
      small',
      stream_chunk k (print_chunks ks rest) b total all.0 all.1 small
          ∙ ap (prepend k.content) later
          ∙ ap (λ p. record (decode_stream (ready b (total_after total' ks)) rest) { payload = p })
              (sym (
                append_assoc k.content (contents ks)
                  (decode_stream (ready b (total_after total' ks)) rest).payload)),
    )
