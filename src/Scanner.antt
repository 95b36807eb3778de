-- ===== src/Scanner.antt =====
-- The scanner: src/ihtp_scanner_scalar.c, src/ihtp_scanner_avx2.c and src/ihtp_scanner_sse42.c.
-- A returned pointer `buf + i` is the offset `i`. A C string is the list of its bytes; reading
-- it stops at a NUL, or at the end of the list.
-- `_mm_cmpestri` is a parameter, the function `cmpestri` of a needle and a 16-byte haystack, as
-- are the build's `IOHTTPPARSER_HAVE_*` and the answers of `__builtin_cpu_supports`.
pub mod Backends
pub mod Tokens
pub mod Dispatch
use Prim.Native.Nat.{bit_and, bit_or}
use Prim.Native.String.{String}
use iohttpparser.Base.{
  ℕ, zero, suc, ◌+◌, Bool, true, false, not, ◌&&◌, ◌||◌, Option, none, some, List, [], ◌∷◌, Bytes,
  leb, ltb, ◌==◌, if◌then◌else◌, length, get_or, set, take, drop, replicate,
}
use iohttpparser.Chars.{is_token_char, is_lws}

pub record ScannerVtable : Type 0 where
  pub find_char : Bytes → Bytes → ℕ
  pub is_token : Bytes → Bool

-- Which backends are compiled in, and which the processor supports.
pub record Features : Type 0 where
  pub sse42 : Bool
  pub avx2 : Bool

-- `table[(uint8_t)*d] = 1` for each delimiter.
pub fill_table : List ℕ → Bytes → List ℕ
fill_table table [] = table
fill_table table (d ∷ ds) =
    let rest = fill_table (set table d 1) ds in if d == 0 then table else rest

pub delim_table : Bytes → List ℕ
unfolding fill_table
delim_table = fill_table (replicate 256 0)

-- The offset of the first byte with an entry in the table, or the length.
pub scan_table : List ℕ → Bytes → ℕ
scan_table table [] = 0
scan_table table (c ∷ cs) = if get_or table c 0 == 0 then suc (scan_table table cs) else 0

unfoldable pub find_char_scalar : Bytes → Bytes → ℕ
unfolding delim_table scan_table
find_char_scalar buf delims = scan_table (delim_table delims) buf

unfoldable pub is_token_scalar : Bytes → Bool
is_token_scalar [] = true
is_token_scalar (c ∷ cs) = is_token_char c && is_token_scalar cs

-- The inner loop of the AVX2 scanner over `n` bytes.
pub scan_block : ℕ → List ℕ → Bytes → Option ℕ
scan_block zero table buf = none
scan_block (suc n) table [] = none
scan_block (suc n) table (c ∷ cs) =
    if get_or table c 0 == 0
    then elim (scan_block n table cs) [ none ↦ none | some j ↦ some (suc j) ]
    else some 0

-- Blocks of 32 bytes, then the tail. With no fuel left the answer is 0: see `Backends`.
pub find_blocks_avx2 : ℕ → List ℕ → Bytes → ℕ
find_blocks_avx2 zero table buf = 0
find_blocks_avx2 (suc fuel) table buf = elim (leb 32 (length buf)) [
  | true ↦ elim (scan_block 32 table buf) [
    | some j ↦ j
    | none ↦ 32 + find_blocks_avx2 fuel table (drop 32 buf)
  ]
  | false ↦ scan_table table buf
]

unfoldable pub find_char_avx2 : Bytes → Bytes → ℕ
unfolding find_blocks_avx2 scan_block scan_table delim_table
find_char_avx2 buf delims = find_blocks_avx2 (length buf + 1) (delim_table delims) buf

-- With no fuel left the answer is `false`.
pub token_blocks_avx2 : ℕ → Bytes → Bool
token_blocks_avx2 zero buf = false
token_blocks_avx2 (suc fuel) buf = elim (leb 32 (length buf)) [
  | true ↦ elim (is_token_scalar (take 32 buf)) [
    | true ↦ token_blocks_avx2 fuel (drop 32 buf)
    | false ↦ false
  ]
  | false ↦ is_token_scalar buf
]

unfoldable pub is_token_avx2 : Bytes → Bool
unfolding token_blocks_avx2 is_token_scalar
is_token_avx2 buf = token_blocks_avx2 (length buf + 1) buf

-- `strlen`
pub strlen : Bytes → ℕ
strlen [] = 0
strlen (d ∷ ds) = if d == 0 then 0 else suc (strlen ds)

pub contains : Bytes → ℕ → Bool
contains [] c = false
contains (d ∷ ds) c = c == d || contains ds c

-- The scalar tail of the SSE4.2 scanner.
pub scan_delims : Bytes → Bytes → ℕ
unfolding contains
scan_delims delims [] = 0
scan_delims delims (c ∷ cs) = if contains delims c then 0 else suc (scan_delims delims cs)

module _ (cmpestri : Bytes → Bytes → ℕ) where
  -- Blocks of 16 bytes, then the tail. With no fuel left the answer is 0.
  pub find_blocks_sse42 : ℕ → Bytes → Bytes → ℕ
  find_blocks_sse42 zero needle buf = 0
  find_blocks_sse42 (suc fuel) needle buf = elim (leb 16 (length buf)) [
    | true ↦
        let idx = cmpestri needle (take 16 buf) in
        elim (ltb idx 16) [ true ↦ idx | false ↦ 16 + find_blocks_sse42 fuel needle (drop 16 buf) ]
    | false ↦ scan_delims needle buf
  ]

  unfoldable pub find_char_sse42 : Bytes → Bytes → ℕ
  unfolding find_blocks_sse42 scan_delims strlen find_char_scalar
  find_char_sse42 buf delims =
      let dlen = strlen delims in
      if dlen == 0 || ltb 16 dlen
      then find_char_scalar buf delims
      else find_blocks_sse42 (length buf + 1) (take dlen delims) buf

unfoldable pub is_token_sse42 : Bytes → Bool
is_token_sse42 buf = is_token_scalar buf

-- The bits of `__builtin_cpu_supports`, for the backends that are compiled in.
unfoldable pub simd_level : Features → Features → ℕ
simd_level have cpu =
    let sse = if have.sse42 && cpu.sse42 then bit_or 0 1 else 0 in
    if have.avx2 && cpu.avx2 then bit_or sse 2 else sse

unfoldable pub backend_name_for_level : Features → ℕ → String
backend_name_for_level have level =
    if have.avx2 && not (bit_and level 2 == 0)
    then "avx2"
    else if have.sse42 && not (bit_and level 1 == 0)
    then "sse42"
    else "scalar"

unfoldable pub select_vtable : (Bytes → Bytes → ℕ) → Features → ℕ → ScannerVtable
select_vtable cmpestri have level =
    if have.avx2 && not (bit_and level 2 == 0)
    then record { find_char = find_char_avx2; is_token = is_token_avx2 }
    else if have.sse42 && not (bit_and level 1 == 0)
    then record { find_char = find_char_sse42 cmpestri; is_token = is_token_sse42 }
    else record { find_char = find_char_scalar; is_token = is_token_scalar }

module _ (cmpestri : Bytes → Bytes → ℕ) (have cpu : Features) where
  -- The two static variables; `none` is "not initialised".
  pub scanner_init : Option ScannerVtable → Option ScannerVtable
  unfolding simd_level
  scanner_init (some v) = some v
  scanner_init none = some (select_vtable cmpestri have (simd_level have cpu))

  -- The static variables afterwards, and the table that they hold.
  unfoldable pub scanner_get : Option ScannerVtable → Option ScannerVtable × ScannerVtable
  unfolding scanner_init
  scanner_get (some v) = (some v, v)
  scanner_get none =
      let v = select_vtable cmpestri have (simd_level have cpu) in (scanner_init none, v)

unfoldable pub scan_skip_lws : Bytes → ℕ
scan_skip_lws [] = 0
scan_skip_lws (c ∷ cs) = if is_lws c then suc (scan_skip_lws cs) else 0
