-- ===== src/Body/Chunked/Invariant.antt =====
-- What holds of the decoder of src/ihtp_body_decoder.c between any two bytes.
use native.Mathlib.Nat.{pow-suc, pow-le-pow_right}
use native.Mathlib.Numerals.{towards_suc}
use mathlib.Core.Path.{subst}
use iohttpparser.Base.{
  ℕ, suc, ◌+◌, ◌*◌, ◌^◌, ◌≤◌, ◌<◌, Bool, true, ◌≡◌, arith, Bool-cases, leb, inl, inr,
}
use iohttpparser.Body.Chunked.{
  ChunkState, chunk_size, chunk_data, chunk_trailer, no_case, ChunkedDecoder, zero_decoder,
  is_hex_digit, hex_digit_to_u64, Framing, consume, finish, reject, framing_byte, size_byte,
  take_bytes,
}
use iohttpparser.Body.Chunked.Stream.{take_byte}

-- In `CHUNK_SIZE` the number read so far has the digits counted; in `CHUNK_DATA` there is data
-- to come; in `CHUNK_TRAILER` the digit counter holds one of the four trailer states. No state
-- without a case is valid.
abbrev pub StateInv : ChunkState → ℕ → ℕ → Type 0
StateInv chunk_size left count = left < 16 ^ count
StateInv chunk_data left count = 0 < left
StateInv chunk_trailer left count = count ≤ 3
StateInv (no_case n) left count = ⊥
StateInv _ left count = Unit

pub record IsValid (d : ChunkedDecoder) : Type 0 where
  pub count_le : d.hex_count ≤ 16
  pub left_lt : d.bytes_left_in_chunk < 2 ^ 64
  pub total_lt : d.total_decoded < 2 ^ 64
  pub in_state : StateInv d.state d.bytes_left_in_chunk d.hex_count

abbrev pub FramingInv : Framing → Type 0
FramingInv (consume d) = IsValid d
FramingInv (finish d) = IsValid d
FramingInv reject = Unit

pub hex_digit-lt : (c : ℕ) → is_hex_digit c ≡ true → hex_digit_to_u64 c < 16
unfolding hex_digit_to_u64
hex_digit-lt c h = ground arith

-- One more digit fits: sixteen hexadecimal digits stay below 2 ^ 64.
pub accumulate_lt :
    (left count digit : ℕ)
    → left < 16 ^ count
    → count < 16
    → digit < 16
    → (left * 16 + digit < 16 ^ (count + 1)) × (left * 16 + digit < 2 ^ 64)
accumulate_lt left count digit fits room small =
    let grown : left * 16 + digit < 16 ^ suc count = omega (arith, pow-suc 16 count) in
    let top : 16 ^ suc count ≤ 16 ^ 16 = pow-le-pow_right (omega arith) room in
    (simp towards_suc grown, omega (arith, grown, top))

-- The accumulation `bytes_left * 16 + digit` does not wrap.
pub accumulate_exact :
    (d : ChunkedDecoder) (c : ℕ)
    → d.state ≡ chunk_size
    → IsValid d
    → d.hex_count < 16
    → is_hex_digit c ≡ true
    → (d.bytes_left_in_chunk * 16 + hex_digit_to_u64 c < 16 ^ (d.hex_count + 1))
      × (d.bytes_left_in_chunk * 16 + hex_digit_to_u64 c < 2 ^ 64)
accumulate_exact d c e v room h =
    let inside : StateInv chunk_size d.bytes_left_in_chunk d.hex_count =
      subst (λ s. StateInv s d.bytes_left_in_chunk d.hex_count) e v.in_state in
    accumulate_lt d.bytes_left_in_chunk d.hex_count (hex_digit_to_u64 c) inside room
      (hex_digit-lt c h)

size_byte-IsValid :
    (d : ChunkedDecoder) (c : ℕ) → d.state ≡ chunk_size → IsValid d → FramingInv (size_byte d c)
unfolding size_byte
size_byte-IsValid d c e v = elim (Bool-cases (is_hex_digit c)) [
  | inl hex ↦ elim (Bool-cases (leb 16 d.hex_count)) [
    | inl full ↦ rw (hex, full) tt
    | inr room ↦
        let exact = accumulate_exact d c e v (ground arith) hex in rw (hex, room) (ground arith)
  ]
  | inr other ↦ rw other (ground arith)
]

pub framing_byte-IsValid :
    (s : ChunkState) (d : ChunkedDecoder) (c : ℕ)
    → d.state ≡ s
    → IsValid d
    → FramingInv (framing_byte s d c)
unfolding framing_byte
framing_byte-IsValid chunk_size d c e v = size_byte-IsValid d c e v
framing_byte-IsValid _ d c e v = ground arith

pub take_byte-IsValid :
    (d : ChunkedDecoder) → d.state ≡ chunk_data → IsValid d → IsValid (take_byte d)
unfolding take_byte
take_byte-IsValid d e v = ground arith

pub take_bytes-IsValid :
    (d : ChunkedDecoder) (n : ℕ)
    → d.state ≡ chunk_data
    → IsValid d
    → n ≤ d.bytes_left_in_chunk
    → IsValid (take_bytes d n)
unfolding take_bytes
take_bytes-IsValid d n e v h = ground arith

pub data_left : (d : ChunkedDecoder) → d.state ≡ chunk_data → IsValid d → 0 < d.bytes_left_in_chunk
data_left d e v = subst (λ s. StateInv s d.bytes_left_in_chunk d.hex_count) e v.in_state

pub zero_decoder-IsValid : (consume_trailer : Bool) → IsValid (zero_decoder consume_trailer)
zero_decoder-IsValid b = omega arith
