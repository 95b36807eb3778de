-- ===== src/Body/Chunked/Stream.antt =====
-- A reference for the chunked decoder of src/ihtp_body_decoder.c that has no buffer positions:
-- it reads a stream byte by byte and gives the payload as a value.
use iohttpparser.Base.{ℕ, ◌+◌, ◌-◌, ◌%◌, ◌^◌, [], ◌∷◌, ◌++◌, Bytes, ◌==◌, if◌then◌else◌}
use iohttpparser.Body.Chunked.{
  ChunkState, chunk_data, chunk_data_cr, chunk_done, ChunkedDecoder, Framing, consume, finish,
  reject, framing_byte,
}

-- `complete` carries the bytes that were not read.
pub data StreamStatus : Type 0 where
  complete : Bytes → StreamStatus
  incomplete error : StreamStatus

pub record Decoded : Type 0 where
  pub status : StreamStatus
  pub decoder : ChunkedDecoder
  pub payload : Bytes

abbrev pub prepend : Bytes → Decoded → Decoded
prepend xs r = record r { payload = xs ++ r.payload }

-- One payload byte.
unfoldable pub take_byte : ChunkedDecoder → ChunkedDecoder
take_byte d =
    let left = d.bytes_left_in_chunk - 1 in
    record d {
      bytes_left_in_chunk = left;
      total_decoded = (d.total_decoded + 1) % 2 ^ 64;
      state = if left == 0 then chunk_data_cr else d.state;
    }

unfoldable pub after_byte : ChunkedDecoder → Bytes → (ChunkedDecoder → Decoded) → Framing → Decoded
after_byte d cs rest (consume d') = rest d'
after_byte d cs rest (finish d') = record { status = complete cs; decoder = d'; payload = [] }
after_byte d cs rest reject = record { status = error; decoder = d; payload = [] }

unfoldable pub stream_step :
    ChunkState → ChunkedDecoder → ℕ → Bytes → (ChunkedDecoder → Decoded) → Decoded
unfolding take_byte after_byte
stream_step chunk_data d c cs rest = prepend (c ∷ []) (rest (take_byte d))
stream_step chunk_done d c cs rest = record {
  status = complete (c ∷ cs);
  decoder = d;
  payload = [];
}
stream_step s d c cs rest = after_byte d cs rest (framing_byte s d c)

unfoldable pub decode_stream : ChunkedDecoder → Bytes → Decoded
unfolding stream_step
decode_stream d [] = record { status = incomplete; decoder = d; payload = [] }
decode_stream d (c ∷ cs) = stream_step d.state d c cs (λ d'. decode_stream d' cs)
