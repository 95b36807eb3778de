-- ===== src/Scanner/Backends.antt =====
-- The scanner backends of src/ihtp_scanner_avx2.c and src/ihtp_scanner_sse42.c beside the scalar one.
use iohttpparser.Base.{
  ℕ, zero, suc, ◌+◌, ◌≤◌, ◌<◌, ◌≡◌, refl, sym, ap, ◌∙◌, arith, true, false, none, some, List, [],
  ◌∷◌, ◌++◌, Bytes, leb, ltb, ◌==◌, if◌then◌else◌, length, get_or, set, take, drop, replicate,
  leb→le, ◌&&◌, dec_lt, length-set, length-drop, Bool-cases, inl, inr, take-append-drop,
}
use iohttpparser.Scanner.{
  fill_table, delim_table, scan_table, is_token_scalar, scan_block, find_blocks_avx2,
  token_blocks_avx2, strlen, contains, scan_delims,
}

-- The bytes of a C string, up to the NUL.
abbrev pub c_string : Bytes → Bytes
c_string delims = take (strlen delims) delims

get_or-replicate : (n i : ℕ) → get_or {A = ℕ} (replicate n 0) i 0 ≡ 0
get_or-replicate zero i = refl
get_or-replicate (suc n) zero = refl
get_or-replicate (suc n) (suc i) = get_or-replicate n i

get_or-set :
    (xs : List ℕ) (i j v : ℕ)
    → i < length xs
    → get_or (set xs i v) j 0 ≡ (if j == i then v else get_or xs j 0)
get_or-set [] i j v h = absurd (omega arith)
get_or-set (x ∷ xs) zero zero v h = refl
get_or-set (x ∷ xs) zero (suc j) v h = ground arith
get_or-set (x ∷ xs) (suc i) zero v h = ground arith
get_or-set (x ∷ xs) (suc i) (suc j) v h = ground (arith, get_or-set xs i j v)

abbrev pub AllBytes : Bytes → Type 0
AllBytes [] = Unit
AllBytes (c ∷ cs) = (c < 256) × AllBytes cs

-- `i` is where the first byte of `needle` stands in `buf`, or the length if there is none.
pub record IsFirstMatch (needle buf : Bytes) (i : ℕ) : Type 0 where
  pub within : i ≤ length buf
  pub before : (j : ℕ) → j < i → contains needle (get_or buf j 0) ≡ false
  pub at : i < length buf → contains needle (get_or buf i 0) ≡ true

fill_table-contains :
    (ds : Bytes) (table : List ℕ) (c : ℕ)
    → AllBytes ds
    → length table ≡ 256
    → (get_or (fill_table table ds) c 0 == 0)
      ≡ (if contains (c_string ds) c then false else get_or table c 0 == 0)
unfolding fill_table strlen contains
fill_table-contains [] table c all size = refl
fill_table-contains (d ∷ ds) table c all size = elim (Bool-cases (d == 0)) [
  | inl nul ↦ rw nul refl
  | inr other ↦ rw other (
      fill_table-contains ds (set table d 1) c all.1 (length-set table d 1 ∙ size)
      ∙ rw (get_or-set table d c 1 (omega (arith, size))) (ground arith))
]

pub scan_table-scan_delims :
    (delims buf : Bytes)
    → AllBytes delims
    → scan_table (delim_table delims) buf ≡ scan_delims (c_string delims) buf
unfolding scan_table delim_table scan_delims
scan_table-scan_delims delims [] all = refl
scan_table-scan_delims delims (c ∷ cs) all =
    let here = fill_table-contains delims (replicate 256 0) c all refl in
    rw (here, get_or-replicate 256 c, scan_table-scan_delims delims cs all) (ground arith)

scan_block_lem :
    (n : ℕ) (table : List ℕ) (buf : Bytes)
    → n ≤ length buf
    → scan_table table buf
      ≡ (elim (scan_block n table buf) [ some j ↦ j | none ↦ n + scan_table table (drop n buf) ])
unfolding scan_block scan_table
scan_block_lem zero table buf h = omega arith
scan_block_lem (suc n) table [] h = absurd (omega arith)
scan_block_lem (suc n) table (c ∷ cs) h = ground (arith, scan_block_lem n table cs)

pub find_blocks_avx2_lem :
    (fuel : ℕ) (table : List ℕ) (buf : Bytes)
    → length buf < fuel
    → find_blocks_avx2 fuel table buf ≡ scan_table table buf
unfolding find_blocks_avx2
find_blocks_avx2_lem zero table buf h = absurd (omega arith)
find_blocks_avx2_lem (suc fuel) table buf h = elim (Bool-cases (leb 32 (length buf))) [
  | inl block ↦
      let room : 32 ≤ length buf = leb→le 32 (length buf) block in
      let behind =
        find_blocks_avx2_lem fuel table (drop 32 buf) (omega (arith, length-drop 32 buf)) in
      rw (block, find_blocks_avx2)
        (ap (λ (n : ℕ). elim (scan_block 32 table buf) [ some j ↦ j | none ↦ 32 + n ]) behind
          ∙ sym (scan_block_lem 32 table buf room))
  | inr tail ↦ rw (tail, find_blocks_avx2) refl
]

is_token-append :
    (xs ys : Bytes) → is_token_scalar (xs ++ ys) ≡ (is_token_scalar xs && is_token_scalar ys)
unfolding is_token_scalar
is_token-append [] ys = refl
is_token-append (x ∷ xs) ys = ground (arith, is_token-append xs ys)

pub token_blocks_avx2_lem :
    (fuel : ℕ) (buf : Bytes) → length buf < fuel → token_blocks_avx2 fuel buf ≡ is_token_scalar buf
unfolding token_blocks_avx2
token_blocks_avx2_lem zero buf h = absurd (omega arith)
token_blocks_avx2_lem (suc fuel) buf h = elim (Bool-cases (leb 32 (length buf))) [
  | inl block ↦
      let room : 32 ≤ length buf = leb→le 32 (length buf) block in
      let behind = token_blocks_avx2_lem fuel (drop 32 buf) (omega (arith, length-drop 32 buf)) in
      let split =
        ap is_token_scalar (sym (take-append-drop 32 buf))
        ∙ is_token-append (take 32 buf) (drop 32 buf) in
      elim (Bool-cases (is_token_scalar (take 32 buf))) [
        | inl front ↦ rw (block, front, token_blocks_avx2) (behind ∙ sym (split ∙ rw front))
        | inr front ↦ rw (block, front, token_blocks_avx2) (sym (split ∙ rw front))
      ]
  | inr tail ↦ rw (tail, token_blocks_avx2) refl
]

pub scan_delims-append :
    (needle xs ys : Bytes)
    → scan_delims needle (xs ++ ys) ≡ (
        if ltb (scan_delims needle xs) (length xs)
        then scan_delims needle xs
        else length xs + scan_delims needle ys)
unfolding scan_delims
scan_delims-append needle [] ys = omega arith
scan_delims-append needle (x ∷ xs) ys = ground (arith, scan_delims-append needle xs ys)

-- Two facts: the scan is a first match, and the only one.
pub scan_delims-IsFirstMatch :
    (needle buf : Bytes) → IsFirstMatch needle buf (scan_delims needle buf)
unfolding scan_delims
scan_delims-IsFirstMatch needle [] = record {
  within = omega arith;
  before = λ j h. absurd (omega arith);
  at = λ h. absurd (omega arith);
}
scan_delims-IsFirstMatch needle (c ∷ cs) =
    let rest = scan_delims-IsFirstMatch needle cs in
    elim (Bool-cases (contains needle c)) [
      | inl found ↦
          rw found
            (record { within = omega arith; before = λ j h. absurd (omega arith); at = λ h. found })
      | inr other ↦ rw other (record {
        within = omega (arith, rest.within);
        before = elim [ zero ↦ (λ h. other) | suc j ↦ (λ h. rest.before j (omega arith)) ];
        at = λ h. rest.at (omega arith);
      })
    ]

pub first_match_unique :
    (needle buf : Bytes) (i : ℕ) → IsFirstMatch needle buf i → i ≡ scan_delims needle buf
first_match_unique needle buf i m =
    let n = scan_delims-IsFirstMatch needle buf in
    let k = scan_delims needle buf in
    elim (dec_lt i k) [
      | yes lt ↦ cc (n.before i lt, m.at (omega (arith, n.within)))
      | no ge ↦ elim (dec_lt k i) [
        | yes lt ↦ cc (m.before k lt, n.at (omega (arith, m.within)))
        | no le ↦ omega arith
      ]
    ]
