-- ===== src/Examples/BodyDecoders.antt =====
-- The decoders of src/ihtp_body_decoder.c on small bodies.
use iohttpparser.Base.{
  ◌-◌, ◌%◌, ◌^◌, ◌≤◌, ◌≡◌, refl, arith, true, false, none, some, List, [], ◌∷◌, ◌++◌, Bytes, codes,
  length, take, drop, ◌==◌, if◌then◌else◌,
}
use iohttpparser.Body.Chunked.{
  ChunkStatus, status_bits, ChunkedDecoder, Return, zero_decoder, decode_chunked, chunk_data,
}
use iohttpparser.Body.Chunked.Grammar.{
  SizeLine, Chunk, IsSize, AllChunks, AllTrailers, print_body, contents,
}
use iohttpparser.Body.Chunked.Incremental.{decode_chunked_resume, SameOutcome, payload_of}
use iohttpparser.Body.Chunked.Invariant.{IsValid}
use iohttpparser.Body.Chunked.Refinement.{decode_chunked-decode_stream}
use iohttpparser.Body.Chunked.Refinement.Round.{Agrees}
use iohttpparser.Body.Chunked.RoundTrip.{decode_chunked-print_body, unread_after}
use iohttpparser.Body.Chunked.Stream.{decode_stream}
use iohttpparser.Body.Chunked.Termination.{decode_chunked_returns}
use iohttpparser.Body.Fixed.{fixed_decoder_init, decode_blocks, decode_fixed_blocks, total_length}
use iohttpparser.Types.{ok, incomplete}

abbrev whole_body : Bytes
whole_body = codes "3\r\nabc\r\n0\r\n\r\nmore"

abbrev cut_body : Bytes
cut_body = codes "3\r\nab"

zero_decoder-IsValid : IsValid (zero_decoder true)
zero_decoder-IsValid = record {
  count_le = omega arith;
  left_lt = omega arith;
  total_lt = omega arith;
  in_state = omega arith;
}

decode_chunked-decode_stream_example :
    (r : Return) × (decode_chunked (zero_decoder true) whole_body ≡ some r)
    × Agrees (length whole_body) [] (decode_stream (zero_decoder true) whole_body) r
decode_chunked-decode_stream_example =
    decode_chunked-decode_stream (zero_decoder true) whole_body zero_decoder-IsValid

-- What the call on the first piece returns: two bytes of the chunk, one to come.
abbrev cut_return : Return
cut_return = record {
  status = ChunkStatus.incomplete;
  decoder = record {
    bytes_left_in_chunk = 1;
    total_decoded = 2;
    hex_count = 1;
    state = chunk_data;
    consume_trailer = true;
  };
  buf = codes "ab\nab";
  bufsz = 2;
}

cut_body_run : decode_chunked (zero_decoder true) cut_body ≡ some cut_return
unfolding decode_chunked iohttpparser.Body.Chunked.take_bytes iohttpparser.Body.Chunked.memmove
cut_body_run = refl

decode_chunked_resume_example :
    (second whole : Return) × (decode_chunked cut_return.decoder (codes "c\r\n0\r\n\r\n")
      ≡ some second)
    × (decode_chunked (zero_decoder true) (cut_body ++ codes "c\r\n0\r\n\r\n") ≡ some whole)
    × SameOutcome whole (payload_of cut_return) second
decode_chunked_resume_example =
    decode_chunked_resume (zero_decoder true) cut_body (codes "c\r\n0\r\n\r\n") cut_return
      zero_decoder-IsValid cut_body_run refl

decode_chunked_returns_example :
    (r : Return) × (decode_chunked (zero_decoder false) (codes "zz") ≡ some r)
    × (length r.buf ≡ length (codes "zz"))
    × (r.bufsz ≤ length (codes "zz"))
decode_chunked_returns_example = decode_chunked_returns (zero_decoder false) (codes "zz") tt

abbrev three : Chunk
three = record {
  size = record { digits = record { upper = false; value = 3 } ∷ []; extension = some (codes "x") };
  content = codes "abc";
}

abbrev last_size : SizeLine
last_size = record { digits = record { upper = false; value = 0 } ∷ []; extension = none }

three-AllChunks : AllChunks (three ∷ [])
three-AllChunks = (
  record {
    all_digits = (omega arith, tt);
    some_digit = omega arith;
    few_digits = omega arith;
    stands_for = refl;
    plain = ((cc), (cc), tt);
  },
  omega arith,
  tt,
)

last_size-IsSize : IsSize last_size 0
last_size-IsSize = record {
  all_digits = (omega arith, tt);
  some_digit = omega arith;
  few_digits = omega arith;
  stands_for = refl;
  plain = tt;
}

abbrev one_trailer : List Bytes
one_trailer = codes "t" ∷ []

one_trailer-AllTrailers : AllTrailers one_trailer
one_trailer-AllTrailers = (((cc), (cc), tt), omega arith, tt)

decode_chunked-print_body_example :
    let unread = unread_after true one_trailer (codes "more") in
    (r : Return) × (decode_chunked
        (zero_decoder true)
        (print_body (three ∷ []) last_size one_trailer (codes "more"))
      ≡ some r)
    × (r.status ≡ ChunkStatus.complete (length unread))
    × (status_bits r.status ≡ length unread)
    × (take r.bufsz r.buf ≡ contents (three ∷ []))
    × (take (length unread) (drop r.bufsz r.buf) ≡ unread)
    × (r.decoder.total_decoded ≡ length (contents (three ∷ [])) % 2 ^ 64)
decode_chunked-print_body_example =
    decode_chunked-print_body (three ∷ []) last_size one_trailer (codes "more") true three-AllChunks
      last_size-IsSize one_trailer-AllTrailers (omega arith)

decode_fixed_blocks_example : decode_blocks (fixed_decoder_init 10) 4 (3 ∷ 3 ∷ []) ≡ (
  record {
    remaining = 10 - total_length 4 (3 ∷ 3 ∷ []);
    total_decoded = total_length 4 (3 ∷ 3 ∷ []);
  },
  if total_length 4 (3 ∷ 3 ∷ []) == 10 then ok else incomplete,
)
decode_fixed_blocks_example = decode_fixed_blocks 10 4 (3 ∷ 3 ∷ []) (omega arith) (omega arith)
