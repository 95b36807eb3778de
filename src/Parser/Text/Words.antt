-- ===== src/Parser/Text/Words.antt =====
-- The word tests of src/ihtp_parser.c on one word.
-- Words are taken with any number of bytes, so that the proof can go byte by byte.
use Prim.Native.Nat.{bit_and}
use iohttpparser.Base.Bits.{and_byte, and-le, every_under, every_under_lem}
use iohttpparser.Base.{
  ℕ, zero, suc, ◌+◌, ◌-◌, ◌*◌, ◌/◌, ◌%◌, ◌^◌, ◌≤◌, ◌<◌, ◌≡◌, refl, ap, ap₂, ◌∙◌, sym, arith, Bool,
  true, [], ◌∷◌, Bytes, leb, leb→le, ◌==◌, if◌then◌else◌, length,
}
use iohttpparser.Parser.Text.{load}
use native.Mathlib.Nat.{pow-suc, mod-eq_of_lt}
use native.Mathlib.Decide.{dec_le}

-- `n` times the byte `v`.
abbrev pub repeated : ℕ → ℕ → ℕ
repeated zero v = 0
repeated (suc n) v = v + 256 * repeated n v

abbrev pub AllBytes : Bytes → Type 0
AllBytes [] = Unit
AllBytes (c ∷ cs) = (c < 256) × AllBytes cs

-- `(w - repeated limit) & ~w & highs`, of `n` bytes.
unfoldable pub below : ℕ → ℕ → ℕ → ℕ
below limit n w =
    bit_and (bit_and ((w + 256 ^ n - repeated n limit) % 256 ^ n) (256 ^ n - 1 - w))
      (repeated n 128)

load-lt : (bs : Bytes) → AllBytes bs → load bs < 256 ^ length bs
unfolding load
load-lt [] all = omega arith
load-lt (b ∷ bs) all = omega (arith, load-lt bs all.1, pow-suc 256 (length bs))

repeated-lt : (n v : ℕ) → v < 256 → repeated n v < 256 ^ n
repeated-lt zero v h = omega arith
repeated-lt (suc n) v h = omega (arith, repeated-lt n v h, pow-suc 256 n)

-- One byte: the test for a limit.
abbrev byte_test : ℕ → ℕ → Bool
byte_test limit b =
    if bit_and (bit_and ((b + 256 - limit) % 256) (255 - b)) 128 == 0 then leb limit b else true

-- The limits that the source uses.
pub data IsLimit : ℕ → Type 0 where
  one : IsLimit 1
  space : IsLimit 0x20
  above_space : IsLimit 0x21

limit_tables : {limit : ℕ} → IsLimit limit → every_under (byte_test limit) 256 ≡ true
unfolding every_under
limit_tables one = refl
limit_tables space = refl
limit_tables above_space = refl

sub_wrap_down : (w r m : ℕ) → w < m → r ≤ w → (w + m - r) % m ≡ w - r
sub_wrap_down w r m h le =
    let moved : w + m - r ≡ (w - r) + m = omega arith in rw moved (grind arith)

sub_wrap_up : (w r m : ℕ) → w < r → r ≤ m → (w + m - r) % m ≡ w + m - r
sub_wrap_up w r m lt h = mod-eq_of_lt (omega arith)

-- The difference of two words, by its lowest byte and the rest.
record IsDifference (limit b w r m d : ℕ) : Type 0 where
  low : d % 256 ≡ (b + 256 - limit) % 256
  rest : limit ≤ b → d / 256 ≡ (w + m - r) % m

difference :
    (limit b w r m : ℕ)
    → b < 256
    → limit < 256
    → w < m
    → r < m
    → IsDifference limit b w r m ((b + 256 * w + m * 256 - (limit + 256 * r)) % (m * 256))
difference limit b w r m hb hl hw hr = elim (dec_le (limit + 256 * r) (b + 256 * w)) [
  | yes le ↦
      let whole = sub_wrap_down (b + 256 * w) (limit + 256 * r) (m * 256) (omega arith) le in
      record {
        low = omega (arith, whole);
        rest = λ h. rw (whole, sub_wrap_down w r m hw (omega arith)) (omega arith);
      }
  | no gt ↦
      let whole =
        sub_wrap_up (b + 256 * w) (limit + 256 * r) (m * 256) (omega arith) (omega arith) in
      record {
        low = omega (arith, whole);
        rest = λ h. rw (whole, sub_wrap_up w r m (omega arith) (omega arith)) (omega arith);
      }
]

and_low :
    (d d0 d1 c c0 c1 h : ℕ)
    → d ≡ d0 + 256 * d1
    → c ≡ c0 + 256 * c1
    → d0 < 256
    → c0 < 256
    → bit_and (bit_and d c) (128 + 256 * h)
      ≡ bit_and (bit_and d0 c0) 128 + 256 * bit_and (bit_and d1 c1) h
and_low d d0 d1 c c0 c1 h ed ec small_d small_c =
    ap₂ (λ (x y : ℕ). bit_and (bit_and x y) (128 + 256 * h)) ed ec
    ∙ ap (λ (x : ℕ). bit_and x (128 + 256 * h)) (and_byte d0 c0 d1 c1 small_d small_c)
    ∙ and_byte (bit_and d0 c0) 128 (bit_and d1 c1) h (omega (arith, and-le d0 c0)) (omega arith)

byte_test_sound :
    {limit : ℕ} (l : IsLimit limit) (b : ℕ)
    → b < 256
    → bit_and (bit_and ((b + 256 - limit) % 256) (255 - b)) 128 ≡ 0
    → limit ≤ b
byte_test_sound {limit} l b small zero_test =
    let checked = every_under_lem (byte_test limit) 256 b small (limit_tables l) in
    leb→le limit b (rw (zero_test) at checked)

limit-lt : {limit : ℕ} → IsLimit limit → limit < 256
limit-lt one = omega arith
limit-lt space = omega arith
limit-lt above_space = omega arith

below_step :
    {limit : ℕ} (l : IsLimit limit) (m b w : ℕ)
    → b < 256
    → w < 256 ^ m
    → below limit (suc m) (b + 256 * w) ≡ 0
    → (limit ≤ b) × (below limit m w ≡ 0)
unfolding below
below_step {limit} l m b w small fits test =
    let r = repeated m limit in
    let d = (b + 256 * w + 256 ^ m * 256 - (limit + 256 * r)) % (256 ^ m * 256) in
    let is_d =
      difference limit b w r (256 ^ m) small (limit-lt l) fits (repeated-lt m limit (limit-lt l)) in
    let c1 = 256 ^ m - 1 - w in
    let split =
      and_low d (d % 256) (d / 256) (256 ^ m * 256 - 1 - (b + 256 * w)) (255 - b) c1
        (repeated m 128) (omega arith) (omega arith) (omega arith) (omega arith) in
    let test' : bit_and (bit_and d (256 ^ m * 256 - 1 - (b + 256 * w))) (128 + 256 * repeated m 128)
        ≡ 0 =
      ap
        (λ (p : ℕ).
          bit_and (bit_and ((b + 256 * w + p - (limit + 256 * r)) % p) (p - 1 - (b + 256 * w)))
            (128 + 256 * repeated m 128))
        (sym (pow-suc 256 m))
      ∙ test in
    let low_zero : bit_and (bit_and (d % 256) (255 - b)) 128 ≡ 0 = omega (arith, split, test') in
    let rest_zero : bit_and (bit_and (d / 256) c1) (repeated m 128) ≡ 0 =
      omega (arith, split, test') in
    let at_least =
      byte_test_sound l b small
        (ap (λ (x : ℕ). bit_and (bit_and x (255 - b)) 128) (sym is_d.low) ∙ low_zero) in
    (
      at_least,
      ap (λ (x : ℕ). bit_and (bit_and x c1) (repeated m 128)) (sym (is_d.rest at_least))
          ∙ rest_zero,
    )

abbrev pub AllAtLeast : ℕ → Bytes → Type 0
AllAtLeast limit [] = Unit
AllAtLeast limit (c ∷ cs) = (limit ≤ c) × AllAtLeast limit cs

pub below_sound :
    {limit : ℕ} (l : IsLimit limit) (bs : Bytes)
    → AllBytes bs
    → below limit (length bs) (load bs) ≡ 0
    → AllAtLeast limit bs
unfolding load
below_sound l [] all test = tt
below_sound l (b ∷ bs) all test =
    let (here, later) = below_step l (length bs) b (load bs) all.0 (load-lt bs all.1) test in
    (here, below_sound l bs all.1 later)
