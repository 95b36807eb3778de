-- ===== src/Body/Chunked/RoundTrip/Trailers.antt =====
-- A printed trailer section, in front of any `rest` (src/ihtp_body_decoder.c, `CHUNK_TRAILER`).
use iohttpparser.Base.{ℕ, ◌≡◌, refl, arith, Bool, List, [], ◌∷◌, ◌++◌, Bytes, ap, ◌∙◌}
use iohttpparser.Body.Chunked.{
  chunk_data, chunk_trailer, chunk_done, ChunkedDecoder, framing_byte, ChunkState, finish,
  trailer_line_start, trailer_line, trailer_line_lf, trailer_done_lf,
}
use iohttpparser.Body.Chunked.Grammar.{IsPlain, crlf, print_trailers, AllTrailers}
use iohttpparser.Body.Chunked.Stream.{complete, decode_stream, stream_step, after_byte}
use iohttpparser.Body.Chunked.RoundTrip.Size.{stream_consume}

pub stream_finish :
    (s : ChunkState) (d d' : ChunkedDecoder) (c : ℕ) (cs : Bytes)
    → d.state ≡ s
    → framing_byte s d c ≡ finish d'
    → decode_stream d (c ∷ cs) ≡ record { status = complete cs; decoder = d'; payload = [] }
unfolding decode_stream
stream_finish chunk_data d d' c cs e f = unfold framing_byte in cc
stream_finish chunk_done d d' c cs e f = unfold framing_byte in cc
stream_finish s d d' c cs e f =
    let rest = λ (d : ChunkedDecoder). decode_stream d cs in
    ap (λ t. stream_step t d c cs rest) e ∙ ap (after_byte d cs rest) f

-- The decoder in the trailer section, with its sub-state in the digit counter.
abbrev pub in_trailer : Bool → ℕ → ℕ → ChunkedDecoder
in_trailer b total count = record {
  bytes_left_in_chunk = 0;
  total_decoded = total;
  hex_count = count;
  state = chunk_trailer;
  consume_trailer = b;
}

stream_trailer_text :
    (cs rest : Bytes) (b : Bool) (total : ℕ)
    → IsPlain cs
    → decode_stream (in_trailer b total trailer_line) (cs ++ crlf rest)
      ≡ decode_stream (in_trailer b total trailer_line_start) rest
unfolding framing_byte
stream_trailer_text [] rest b total plain =
    stream_consume chunk_trailer (in_trailer b total trailer_line)
      (in_trailer b total trailer_line_lf) b'\r' (b'\n' ∷ rest) refl refl
    ∙ stream_consume chunk_trailer (in_trailer b total trailer_line_lf)
        (in_trailer b total trailer_line_start) b'\n' rest refl refl
stream_trailer_text (c ∷ cs) rest b total plain =
    stream_consume chunk_trailer (in_trailer b total trailer_line) (in_trailer b total trailer_line)
      c (cs ++ crlf rest) refl (ground arith)
    ∙ stream_trailer_text cs rest b total plain.2

pub stream_trailers :
    (ts : List Bytes) (rest : Bytes) (b : Bool) (total : ℕ)
    → AllTrailers ts
    → decode_stream (in_trailer b total trailer_line_start) (print_trailers ts rest) ≡ record {
      status = complete rest;
      decoder = record (in_trailer b total trailer_done_lf) { state = chunk_done };
      payload = [];
    }
unfolding framing_byte
stream_trailers [] rest b total all =
    stream_consume chunk_trailer (in_trailer b total trailer_line_start)
      (in_trailer b total trailer_done_lf) b'\r' (b'\n' ∷ rest) refl refl
    ∙ stream_finish chunk_trailer (in_trailer b total trailer_done_lf)
        (record (in_trailer b total trailer_done_lf) { state = chunk_done }) b'\n' rest refl refl
stream_trailers ([] ∷ ts) rest b total all = absurd (omega arith)
stream_trailers ((c ∷ cs) ∷ ts) rest b total all =
    stream_consume chunk_trailer (in_trailer b total trailer_line_start)
      (in_trailer b total trailer_line) c (cs ++ crlf (print_trailers ts rest)) refl (ground arith)
    ∙ stream_trailer_text cs (print_trailers ts rest) b total all.0.2
    ∙ stream_trailers ts rest b total all.2
