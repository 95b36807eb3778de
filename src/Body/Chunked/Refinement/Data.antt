-- ===== src/Body/Chunked/Refinement/Data.antt =====
-- Copying `n` bytes of chunk-data at once is reading them one by one.
use iohttpparser.Base.{
  ℕ, suc, ◌-◌, ◌≤◌, ◌<◌, ◌≡◌, refl, arith, [], ◌∷◌, ◌++◌, Bytes, length, ap, ◌∙◌,
}
use iohttpparser.Body.Chunked.{chunk_data, ChunkedDecoder, take_bytes}
use iohttpparser.Body.Chunked.Stream.{decode_stream, take_byte, prepend}

take_byte-take_bytes : (d : ChunkedDecoder) → take_byte d ≡ take_bytes d 1
unfolding take_bytes take_byte
take_byte-take_bytes d = refl

take_bytes-suc :
    (d : ChunkedDecoder) (n : ℕ)
    → n < d.bytes_left_in_chunk
    → take_bytes (take_byte d) n ≡ take_bytes d (suc n)
unfolding take_bytes take_byte
take_bytes-suc d n h = ground arith

take_byte-state :
    (d : ChunkedDecoder)
    → d.state ≡ chunk_data
    → 1 < d.bytes_left_in_chunk
    → (take_byte d).state ≡ chunk_data
unfolding take_byte
take_byte-state d e h = ground arith

take_byte_left :
    (d : ChunkedDecoder) → (take_byte d).bytes_left_in_chunk ≡ d.bytes_left_in_chunk - 1
unfolding take_byte
take_byte_left d = refl

stream_data :
    (d : ChunkedDecoder) (x : ℕ) (cs : Bytes)
    → d.state ≡ chunk_data
    → decode_stream d (x ∷ cs) ≡ prepend (x ∷ []) (decode_stream (take_byte d) cs)
unfolding decode_stream
stream_data d x cs e = rw e

pub decode_stream_data :
    (xs ys : Bytes) (d : ChunkedDecoder)
    → d.state ≡ chunk_data
    → 0 < length xs
    → length xs ≤ d.bytes_left_in_chunk
    → decode_stream d (xs ++ ys) ≡ prepend xs (decode_stream (take_bytes d (length xs)) ys)
decode_stream_data [] ys d e some_data fits = absurd (omega arith)
decode_stream_data (x ∷ []) ys d e some_data fits =
    stream_data d x ys e
    ∙ ap (λ (d' : ChunkedDecoder). prepend (x ∷ []) (decode_stream d' ys)) (take_byte-take_bytes d)
decode_stream_data (x ∷ y ∷ xs) ys d e some_data fits =
    stream_data d x (y ∷ xs ++ ys) e
    ∙ ap (prepend (x ∷ [])) (
        decode_stream_data (y ∷ xs) ys (take_byte d) (take_byte-state d e (omega arith))
          (omega arith) (omega (arith, take_byte_left d)))
    ∙ ap (λ (d' : ChunkedDecoder). prepend (x ∷ y ∷ xs) (decode_stream d' ys))
        (take_bytes-suc d (length (y ∷ xs)) (omega arith))
