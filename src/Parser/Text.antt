-- ===== src/Parser/Text.antt =====
-- The byte classes of request targets and field text, and the eight-bytes-at-a-time loops of
-- `request_target_is_valid` and `field_text_is_valid` in src/ihtp_parser.c. `memcpy` into a
-- `uint64_t` reads the bytes in little-endian order.
pub mod Words
pub mod Clean
pub mod Classes
use Prim.Native.Nat.{bit_and, bit_or, bit_xor}
use iohttpparser.Base.{
  ℕ, zero, suc, ◌+◌, ◌-◌, ◌*◌, ◌%◌, ◌^◌, Bool, true, false, ◌&&◌, ◌||◌, [], ◌∷◌, Bytes, leb, ltb,
  ◌==◌, if◌then◌else◌, length, take, drop,
}

abbrev pub ones : ℕ
ones = 0x0101010101010101

abbrev pub highs : ℕ
highs = 0x8080808080808080

-- The bytes as one number, the first byte lowest.
pub load : Bytes → ℕ
load [] = 0
load (c ∷ cs) = c + 256 * load cs

-- `(chunk - (ones * limit)) & ~chunk & highs`
pub low_controls : ℕ → ℕ → ℕ
low_controls limit chunk =
    bit_and (bit_and ((chunk + 2 ^ 64 - ones * limit) % 2 ^ 64) (2 ^ 64 - 1 - chunk)) highs

-- `(del_bytes - ones) & ~del_bytes & highs`
pub has_del : ℕ → ℕ
has_del chunk =
    let del_bytes = bit_xor chunk (ones * 0x7f) in
    bit_and (bit_and ((del_bytes + 2 ^ 64 - ones) % 2 ^ 64) (2 ^ 64 - 1 - del_bytes)) highs

-- The loops of one word: what is left of the bytes where the loop ends.
unfoldable pub skip_words : ℕ → ℕ → Bytes → Bytes
skip_words limit zero buf = buf
skip_words limit (suc fuel) buf =
    let chunk = load (take 8 buf) in
    elim (leb 8 (length buf) && bit_or (low_controls limit chunk) (has_del chunk) == 0) [
      | true ↦ skip_words limit fuel (drop 8 buf)
      | false ↦ buf
    ]

-- The loop of two words, which runs while four are left.
pub skip_word_pairs : ℕ → Bytes → Bytes
skip_word_pairs zero buf = buf
skip_word_pairs (suc fuel) buf =
    let chunk_a = load (take 8 buf) in
    let chunk_b = load (take 8 (drop 8 buf)) in
    let flags =
      bit_or
        (bit_or (bit_or (low_controls 0x20 chunk_a) (has_del chunk_a)) (low_controls 0x20 chunk_b))
        (has_del chunk_b) in
    elim (leb (8 * 4) (length buf) && flags == 0) [
      | true ↦ skip_word_pairs fuel (drop (8 * 2) buf)
      | false ↦ buf
    ]

pub target_bytes_valid : Bool → Bytes → Bool
target_bytes_valid allow_spaces [] = true
target_bytes_valid allow_spaces (c ∷ cs) =
    let rest = target_bytes_valid allow_spaces cs in
    if c == b' ' && allow_spaces then rest else if leb c 0x20 || c == 0x7f then false else rest

unfoldable pub request_target_is_valid : Bytes → Bool → Bool
unfolding skip_words load low_controls has_del target_bytes_valid
request_target_is_valid buf allow_spaces =
    let rest = if allow_spaces then buf else skip_words 0x21 (length buf) buf in
    target_bytes_valid allow_spaces rest

pub field_bytes_valid : Bytes → Bool
field_bytes_valid [] = true
field_bytes_valid (c ∷ cs) =
    let rest = field_bytes_valid cs in
    if c == b'\t' then rest else if ltb c 0x20 || c == 0x7f then false else rest

unfoldable pub field_text_is_valid : Bytes → Bool
unfolding skip_words skip_word_pairs load low_controls has_del field_bytes_valid
field_text_is_valid buf =
    let rest = skip_word_pairs (length buf) buf in
    field_bytes_valid (skip_words 0x20 (length rest) rest)
