-- ===== src/Body/Chunked/RoundTrip.antt =====
-- The decoder of src/ihtp_body_decoder.c on printed chunked bodies.
mod Size
mod Chunks
mod Trailers
use iohttpparser.Base.{
  ℕ, ◌+◌, ◌*◌, ◌%◌, ◌^◌, ◌≤◌, ◌<◌, ◌≡◌, ◌≢◌, refl, sym, subst, arith, Bool, true, false, List,
  Option, none, some, [], ◌∷◌, append_assoc, append-nil, length-append, Bytes, length, ap, ◌∙◌,
  take, drop, Bool-cases, inl, inr, ltb, leb,
}
use iohttpparser.Body.Chunked.{
  chunk_size_lf, chunk_data, chunk_data_cr, chunk_data_lf, chunk_trailer, chunk_done,
  ChunkedDecoder, zero_decoder, is_hex_digit, hex_digit_to_u64, framing_byte, size_byte, ChunkState,
  Framing, consume, finish, take_bytes, trailer_line_start, trailer_line, trailer_line_lf,
  trailer_done_lf, Return, ChunkStatus, status_bits, decode_chunked,
}
use iohttpparser.Body.Chunked.Grammar.{
  HexDigit, digit_byte, print_digits, number_from, AllDigits, SizeLine, print_extension, print_size,
  IsExtension, IsSize, Chunk, AllChunks, contents, print_trailers, AllTrailers, print_body,
}
use iohttpparser.Body.Chunked.Invariant.{
  zero_decoder-IsValid, IsValid, FramingInv, framing_byte-IsValid, accumulate_exact,
}
use iohttpparser.Body.Chunked.Refinement.{decode_chunked-decode_stream, Agrees}
use iohttpparser.Body.Chunked.Stream.{
  complete, Decoded, decode_stream, stream_step, after_byte, prepend,
}
use Chunks.{ready, sized, stream_size, total_after, stream_chunks}
use Size.{stream_consume}
use Trailers.{stream_finish, in_trailer, stream_trailers}

-- What stands behind a body for this setting of `consume_trailer`.
abbrev pub unread_after : Bool → List Bytes → Bytes → Bytes
unread_after true ts rest = rest
unread_after false ts rest = print_trailers ts rest

stream_last :
    (last : SizeLine) (ts : List Bytes) (rest : Bytes) (b : Bool) (total : ℕ)
    → IsSize last 0
    → AllTrailers ts
    → total < 2 ^ 64
    → (d : ChunkedDecoder) × (decode_stream
          (ready b total)
          (print_size last (print_trailers ts rest))
        ≡ record { status = complete (unread_after b ts rest); decoder = d; payload = [] })
      × (d.total_decoded ≡ total)
unfolding framing_byte
stream_last last ts rest true total size all small = (
  record (in_trailer true total trailer_done_lf) { state = chunk_done },
  stream_size last 0 (print_trailers ts rest) true total size small
      ∙ stream_consume chunk_size_lf (sized true total last 0)
          (in_trailer true total trailer_line_start) b'\n' (print_trailers ts rest) refl refl
      ∙ stream_trailers ts rest true total all,
  refl,
)
stream_last last ts rest false total size all small = (
  record (sized false total last 0) { state = chunk_done },
  stream_size last 0 (print_trailers ts rest) false total size small
      ∙ stream_finish chunk_size_lf (sized false total last 0)
          (record (sized false total last 0) { state = chunk_done }) b'\n' (print_trailers ts rest)
          refl refl,
  refl,
)

total_after_lem :
    (ks : List Chunk) (total : ℕ)
    → total < 2 ^ 64
    → total_after total ks ≡ (total + length (contents ks)) % 2 ^ 64
total_after_lem [] total small = omega arith
total_after_lem (k ∷ ks) total small = omega (
  arith,
  total_after_lem ks ((total + length k.content) % 2 ^ 64) (omega arith),
  length-append k.content (contents ks),
)

-- The call on a printed body, with its number of unread bytes before the conversion.
pub decode_chunked_body :
    (ks : List Chunk) (last : SizeLine) (ts : List Bytes) (rest : Bytes) (consume_trailer : Bool)
    → AllChunks ks
    → IsSize last 0
    → AllTrailers ts
    → let unread = unread_after consume_trailer ts rest in
      (r : Return) × (decode_chunked (zero_decoder consume_trailer) (print_body ks last ts rest)
        ≡ some r)
      × (r.status ≡ ChunkStatus.complete (length unread))
      × (take r.bufsz r.buf ≡ contents ks)
      × (take (length unread) (drop r.bufsz r.buf) ≡ unread)
      × (r.decoder.total_decoded ≡ length (contents ks) % 2 ^ 64)
decode_chunked_body ks last ts rest b all size trailers =
    let body = print_body ks last ts rest in
    let (small, read) =
      stream_chunks ks (print_size last (print_trailers ts rest)) b 0 all (omega arith) in
    let (d, ended, total) = stream_last last ts rest b (total_after 0 ks) size trailers small in
    let s : Decoded = record {
      status = complete (unread_after b ts rest);
      decoder = d;
      payload = contents ks;
    } in
    let whole : decode_stream (zero_decoder b) body ≡ s =
      read
      ∙ ap (prepend (contents ks)) ended
      ∙ ap (λ p. record s { payload = p }) (append-nil (contents ks)) in
    let (r, e, a) = decode_chunked-decode_stream (zero_decoder b) body (zero_decoder-IsValid b) in
    let a' = subst (λ w. Agrees (length body) [] w r) whole a in
    (
      r,
      e,
      a'.2.0,
      a'.2.2,
      a'.2.3,
      ap (λ d. d.total_decoded) a'.0
          ∙ total
          ∙ total_after_lem ks 0 (omega arith)
          ∙ ap (λ (n : ℕ). n % 2 ^ 64) {y = length (contents ks)} (omega arith),
    )

-- A printed chunked body is decoded by one call on a zero-initialised decoder, when: each size is
-- written with one to sixteen hexadecimal digits in either case, that of each chunk is the length
-- of its contents, which are not empty, and the last one is zero; behind the digits stands the
-- CRLF or at once the `;` of an extension without CR and LF (no white space before the `;`); the
-- trailer lines are not empty and without CR and LF; and fewer than 2 ^ 31 bytes are left unread.
-- The call returns the number of unread bytes, also as the C `int` that it is converted to; the
-- payload at the front of the buffer is the contents of the chunks, the unread bytes stand behind
-- it, and `total_decoded` is its length modulo 2 ^ 64. With `consume_trailer` the unread bytes are
-- those behind the body, else they begin with the trailer section.
pub decode_chunked-print_body :
    (ks : List Chunk) (last : SizeLine) (ts : List Bytes) (rest : Bytes) (consume_trailer : Bool)
    → AllChunks ks
    → IsSize last 0
    → AllTrailers ts
    → length (unread_after consume_trailer ts rest) < 2 ^ 31
    → let unread = unread_after consume_trailer ts rest in
      (r : Return) × (decode_chunked (zero_decoder consume_trailer) (print_body ks last ts rest)
        ≡ some r)
      × (r.status ≡ ChunkStatus.complete (length unread))
      × (status_bits r.status ≡ length unread)
      × (take r.bufsz r.buf ≡ contents ks)
      × (take (length unread) (drop r.bufsz r.buf) ≡ unread)
      × (r.decoder.total_decoded ≡ length (contents ks) % 2 ^ 64)
unfolding status_bits
decode_chunked-print_body ks last ts rest b all size trailers few =
    let (r, call, status, payload, behind, total) =
      decode_chunked_body ks last ts rest b all size trailers in
    (r, call, status, rw status (omega arith), payload, behind, total)
