-- ===== src/Body/Chunked.antt =====
-- `ihtp_decode_chunked` of src/ihtp_body_decoder.c, on the buffer in place.
-- The casts between `char` and `uint8_t` do not change the tests on bytes made here.
pub mod Stream
pub mod Invariant
pub mod Refinement
pub mod Incremental
pub mod Grammar
pub mod RoundTrip
pub mod Termination
mod Memory
use iohttpparser.Base.{
  ℕ, zero, suc, ◌+◌, ◌-◌, ◌*◌, ◌%◌, ◌^◌, Bool, true, false, ◌&&◌, ◌||◌, Option, none, some, ◌++◌,
  Bytes, ltb, leb, ◌==◌, if◌then◌else◌, length, get_or, take, drop,
}

-- `decoder->state` is a `char`: one of the eight named states, or another value, for which the
-- `switch` has no case.
pub data ChunkState : Type 0 where
  chunk_size chunk_ext chunk_size_lf chunk_data : ChunkState
  chunk_data_cr chunk_data_lf chunk_trailer chunk_done : ChunkState
  no_case : ℕ → ChunkState

abbrev pub trailer_line_start : ℕ
trailer_line_start = 0

abbrev pub trailer_done_lf : ℕ
trailer_done_lf = 1

abbrev pub trailer_line : ℕ
trailer_line = 2

abbrev pub trailer_line_lf : ℕ
trailer_line_lf = 3

pub record ChunkedDecoder : Type 0 where
  pub bytes_left_in_chunk : ℕ
  pub total_decoded : ℕ
  pub hex_count : ℕ
  pub state : ChunkState
  pub consume_trailer : Bool

abbrev pub zero_decoder : Bool → ChunkedDecoder
zero_decoder consume = record {
  bytes_left_in_chunk = 0;
  total_decoded = 0;
  hex_count = 0;
  state = chunk_size;
  consume_trailer = consume;
}

abbrev pub between : ℕ → ℕ → ℕ → Bool
between lo hi c = leb lo c && leb c hi

abbrev pub is_hex_digit : ℕ → Bool
is_hex_digit c = between b'0' b'9' c || between b'a' b'f' c || between b'A' b'F' c

-- In `uint64_t`; the last branch wraps for a byte below `A`.
unfoldable pub hex_digit_to_u64 : ℕ → ℕ
hex_digit_to_u64 c =
    if between b'0' b'9' c
    then c - b'0'
    else if between b'a' b'f' c
    then c - b'a' + 10
    else (c + 2 ^ 64 - b'A' + 10) % 2 ^ 64

-- What a case of the `switch` does with the byte `buf[src]`: `src++` and go on, `src++` and
-- return the rest as trailing bytes, or return `IHTP_ERROR` with the decoder as it is.
pub data Framing : Type 0 where
  consume : ChunkedDecoder → Framing
  finish : ChunkedDecoder → Framing
  reject : Framing

-- `case CHUNK_SIZE`
pub size_byte : ChunkedDecoder → ℕ → Framing
unfolding hex_digit_to_u64
size_byte d c =
    if is_hex_digit c
    then if leb 16 d.hex_count
      then reject
      else consume (record d {
        bytes_left_in_chunk = (d.bytes_left_in_chunk * 16 + hex_digit_to_u64 c) % 2 ^ 64;
        hex_count = d.hex_count + 1;
      })
    else if c == b';'
    then consume (record d { state = chunk_ext })
    else if c == b'\r'
    then if d.hex_count == 0 then reject else consume (record d { state = chunk_size_lf })
    else reject

-- `case CHUNK_EXT`
pub ext_byte : ChunkedDecoder → ℕ → Framing
ext_byte d c =
    if c == b'\r'
    then consume (record d { state = chunk_size_lf })
    else if c == b'\n'
    then reject
    else consume d

-- `case CHUNK_SIZE_LF`
pub size_lf_byte : ChunkedDecoder → ℕ → Framing
size_lf_byte d c =
    if c == b'\n'
    then if d.bytes_left_in_chunk == 0
      then if d.consume_trailer
        then consume (record d { hex_count = trailer_line_start; state = chunk_trailer })
        else finish (record d { state = chunk_done })
      else consume (record d { state = chunk_data })
    else reject

-- `case CHUNK_DATA_CR`
pub data_cr_byte : ChunkedDecoder → ℕ → Framing
data_cr_byte d c = if c == b'\r' then consume (record d { state = chunk_data_lf }) else reject

-- `case CHUNK_DATA_LF`
pub data_lf_byte : ChunkedDecoder → ℕ → Framing
data_lf_byte d c =
    if c == b'\n'
    then consume (record d { hex_count = 0; bytes_left_in_chunk = 0; state = chunk_size })
    else reject

-- `case CHUNK_TRAILER`
pub trailer_byte : ChunkedDecoder → ℕ → Framing
trailer_byte d c =
    if d.hex_count == trailer_line_start
    then if c == b'\r'
      then consume (record d { hex_count = trailer_done_lf })
      else if c == b'\n'
      then reject
      else consume (record d { hex_count = trailer_line })
    else if d.hex_count == trailer_done_lf
    then if c == b'\n' then finish (record d { state = chunk_done }) else reject
    else if d.hex_count == trailer_line
    then if c == b'\r'
      then consume (record d { hex_count = trailer_line_lf })
      else if c == b'\n'
      then reject
      else consume d
    else if d.hex_count == trailer_line_lf
    then if c == b'\n' then consume (record d { hex_count = trailer_line_start }) else reject
    else reject

-- The cases that look at one byte; the other states are handled in the loop.
unfoldable pub framing_byte : ChunkState → ChunkedDecoder → ℕ → Framing
unfolding size_byte ext_byte size_lf_byte data_cr_byte data_lf_byte trailer_byte
framing_byte chunk_size d c = size_byte d c
framing_byte chunk_ext d c = ext_byte d c
framing_byte chunk_size_lf d c = size_lf_byte d c
framing_byte chunk_data_cr d c = data_cr_byte d c
framing_byte chunk_data_lf d c = data_lf_byte d c
framing_byte chunk_trailer d c = trailer_byte d c
framing_byte chunk_data d c = reject
framing_byte chunk_done d c = reject
framing_byte (no_case n) d c = reject

-- What the call returns: `(ihtp_status_t)(avail - src)` with the number before the conversion,
-- `IHTP_INCOMPLETE` or `IHTP_ERROR`.
pub data ChunkStatus : Type 0 where
  complete : ℕ → ChunkStatus
  incomplete error : ChunkStatus

-- The value of the C `int` that the caller gets, modulo 2 ^ 32: from 2 ^ 31 on it is negative.
unfoldable pub status_bits : ChunkStatus → ℕ
status_bits (complete n) = n % 2 ^ 32
status_bits incomplete = 2 ^ 32 - 2
status_bits error = 2 ^ 32 - 1

pub record Return : Type 0 where
  pub status : ChunkStatus
  pub decoder : ChunkedDecoder
  pub buf : Bytes
  pub bufsz : ℕ

-- The variables of the `while` loop.
pub record Loop : Type 0 where
  pub decoder : ChunkedDecoder
  pub buf : Bytes
  pub src : ℕ
  pub dst : ℕ

pub data Iteration : Type 0 where
  again : Loop → Iteration
  return_with : Return → Iteration

-- `memmove(buf + to, buf + from, n)`
unfoldable pub memmove : Bytes → ℕ → ℕ → ℕ → Bytes
memmove buf to from n = take to buf ++ (take n (drop from buf) ++ drop (to + n) buf)

-- The tail that the three completing returns share.
pub complete_at : ℕ → Loop → ChunkedDecoder → Return
complete_at avail l d = record {
  status = complete (avail - l.src);
  decoder = d;
  buf = if ltb l.src avail then memmove l.buf l.dst l.src (avail - l.src) else l.buf;
  bufsz = l.dst;
}

-- The decoder after `n` bytes of data.
unfoldable pub take_bytes : ChunkedDecoder → ℕ → ChunkedDecoder
take_bytes d n =
    let left = d.bytes_left_in_chunk - n in
    record d {
      bytes_left_in_chunk = left;
      total_decoded = (d.total_decoded + n) % 2 ^ 64;
      state = if left == 0 then chunk_data_cr else d.state;
    }

-- `case CHUNK_DATA`
pub copy_data : ℕ → Loop → Loop
copy_data avail l =
    let left = l.decoder.bytes_left_in_chunk in
    let to_copy = if ltb left (avail - l.src) then left else avail - l.src in
    record {
      decoder = take_bytes l.decoder to_copy;
      buf = memmove l.buf l.dst l.src to_copy;
      src = l.src + to_copy;
      dst = l.dst + to_copy;
    }

pub after_framing : ℕ → Loop → Framing → Iteration
unfolding complete_at
after_framing avail l (consume d) = again (record l { decoder = d; src = l.src + 1 })
after_framing avail l (finish d) = return_with (complete_at avail (record l { src = l.src + 1 }) d)
after_framing avail l reject =
    return_with (record { status = error; decoder = l.decoder; buf = l.buf; bufsz = avail })

pub switch : ChunkState → ℕ → Loop → Iteration
unfolding copy_data complete_at after_framing framing_byte
switch chunk_data avail l = again (copy_data avail l)
switch chunk_done avail l = return_with (complete_at avail l l.decoder)
switch (no_case n) avail l = again l
switch s avail l = after_framing avail l (framing_byte s l.decoder (get_or l.buf l.src 0))

-- `none` means that the fuel ran out.
pub loop : ℕ → ℕ → Loop → Option Return
unfolding switch
loop zero avail l = none
loop (suc fuel) avail l = elim (ltb l.src avail) [
  | true ↦ elim (switch l.decoder.state avail l) [
    | again l' ↦ loop fuel avail l'
    | return_with r ↦ some r
  ]
  | false ↦ some (record { status = incomplete; decoder = l.decoder; buf = l.buf; bufsz = l.dst })
]

-- In a named state a round moves `src`, or leaves an empty `CHUNK_DATA`: two rounds for each byte
-- are enough. In another state the loop does not end, and no fuel is enough.
unfoldable pub decode_chunked : ChunkedDecoder → Bytes → Option Return
unfolding loop
decode_chunked d buf =
    let avail = length buf in
    loop (2 * avail + 2) avail (record { decoder = d; buf = buf; src = 0; dst = 0 })
