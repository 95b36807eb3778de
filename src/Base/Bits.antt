-- ===== src/Base/Bits.antt =====
-- `&`, `|` and `^` of the native numbers: an equation for the lowest digit, from the recursion on
-- digits that the operations stand for, and from it one for the lowest `k` digits.
use Prim.Native.Nat.{
  ℕ, zero, suc, ◌+◌, ◌*◌, ◌/◌, ◌%◌, ◌^◌, ◌≤◌, ◌<◌, min, max, bit_and, bit_or, bit_xor, bitwise,
  digits, differ, bit_and-bitwise, bit_or-bitwise, bit_xor-bitwise,
}
use mathlib.Core.Bool.{Bool, true, ◌&&◌}
use mathlib.Core.Path.{◌≡◌, refl, ◌∙◌, ap, ap₂}
use native.Mathlib.Decide.{dec_le}
use native.Mathlib.Nat.{pow-suc, le_refl}
use native.Mathlib.Omega.{arith}

module _ (z : ℕ → ℕ) (f : ℕ → ℕ → ℕ) where
  -- One round more than needed changes nothing.
  digits_spare : (n a b : ℕ) → a ≤ n → digits z f (suc n) a b ≡ digits z f n a b
  digits_spare n zero b h = digits_zero n b
    where
      digits_zero : (n b : ℕ) → digits z f (suc n) zero b ≡ digits z f n zero b
      digits_zero zero b = refl
      digits_zero (suc n) b = refl
  digits_spare zero (suc a) b h = absurd (omega arith)
  digits_spare (suc n) (suc a) b h =
      ap (λ (t : ℕ). t * 2 + f (suc a % 2) (b % 2))
        (digits_spare n (suc a / 2) (b / 2) (omega arith))

  digits-bitwise : (n a b : ℕ) → a ≤ n → digits z f n a b ≡ bitwise z f a b
  digits-bitwise zero a b h = ap (λ (k : ℕ). digits z f k a b) {x = 0} {y = a} (omega arith)
  digits-bitwise (suc n) a b h = elim (dec_le (suc n) a) [
    | yes top ↦ ap (λ (k : ℕ). digits z f k a b) {x = suc n} {y = a} (omega arith)
    | no more ↦ digits_spare n a b (omega arith) ∙ digits-bitwise n a b (omega arith)
  ]

  bitwise_step :
      (a b : ℕ)
      → z b ≡ z (b / 2) * 2 + f 0 (b % 2)
      → bitwise z f a b ≡ bitwise z f (a / 2) (b / 2) * 2 + f (a % 2) (b % 2)
  bitwise_step zero b base = base
  bitwise_step (suc a) b base =
      ap (λ (t : ℕ). t * 2 + f (suc a % 2) (b % 2))
        (digits-bitwise a (suc a / 2) (b / 2) (omega arith))

pub and_step : (a b : ℕ) → bit_and a b ≡ bit_and (a / 2) (b / 2) * 2 + min (a % 2) (b % 2)
and_step a b = simp bit_and-bitwise (bitwise_step (λ b. 0) min a b (omega arith))

pub or_step : (a b : ℕ) → bit_or a b ≡ bit_or (a / 2) (b / 2) * 2 + max (a % 2) (b % 2)
or_step a b = simp bit_or-bitwise (bitwise_step (λ b. b) max a b (omega arith))

pub xor_step : (a b : ℕ) → bit_xor a b ≡ bit_xor (a / 2) (b / 2) * 2 + differ (a % 2) (b % 2)
xor_step a b = simp bit_xor-bitwise (bitwise_step (λ b. b) differ a b (omega arith))

double_times : (p p2 x : ℕ) → p2 ≡ p * 2 → p2 * x ≡ 2 * (p * x)
double_times p p2 x h = ap (λ (t : ℕ). t * x) h ∙ omega arith

regroup :
    (half halves whole low p p2 o : ℕ)
    → halves ≡ half + p * o
    → whole ≡ half * 2 + low
    → p2 ≡ p * 2
    → halves * 2 + low ≡ whole + p2 * o
regroup half halves whole low p p2 o h w d = omega (arith, double_times p p2 o d)

-- An operation with such a step works on the low `k` digits and on the rest apart.
module _ (op g : ℕ → ℕ → ℕ) (step : (a b : ℕ) → op a b ≡ op (a / 2) (b / 2) * 2 + g (a % 2) (b % 2))
    (zeros : op 0 0 ≡ 0) where
  op_fields :
      (k a b x y : ℕ)
      → a < 2 ^ k
      → b < 2 ^ k
      → op (a + 2 ^ k * x) (b + 2 ^ k * y) ≡ op a b + 2 ^ k * op x y
  op_fields zero a b x y p q =
      let left : a + 2 ^ 0 * x ≡ x = omega arith in
      let right : b + 2 ^ 0 * y ≡ y = omega arith in
      let low : op a b ≡ 0 =
        ap₂ op {x = a} {y = 0} {u = b} {v = 0} (omega arith) (omega arith) ∙ zeros in
      rw (left, right, low) (omega arith)
  op_fields (suc k) a b x y p q =
      let double = pow-suc 2 k in
      let a_double = double_times (2 ^ k) (2 ^ suc k) x double in
      let b_double = double_times (2 ^ k) (2 ^ suc k) y double in
      let a_half : (a + 2 ^ suc k * x) / 2 ≡ a / 2 + 2 ^ k * x = omega (arith, a_double) in
      let b_half : (b + 2 ^ suc k * y) / 2 ≡ b / 2 + 2 ^ k * y = omega (arith, b_double) in
      let a_low : (a + 2 ^ suc k * x) % 2 ≡ a % 2 = omega (arith, a_double) in
      let b_low : (b + 2 ^ suc k * y) % 2 ≡ b % 2 = omega (arith, b_double) in
      let ih = op_fields k (a / 2) (b / 2) x y (omega (arith, double)) (omega (arith, double)) in
      step (a + 2 ^ suc k * x) (b + 2 ^ suc k * y)
      ∙ ap₂ (λ (m n : ℕ). op m n * 2 + g ((a + 2 ^ suc k * x) % 2) ((b + 2 ^ suc k * y) % 2)) a_half
          b_half
      ∙ ap₂ (λ (m n : ℕ). op (a / 2 + 2 ^ k * x) (b / 2 + 2 ^ k * y) * 2 + g m n) a_low b_low
      ∙ regroup (op (a / 2) (b / 2)) (op (a / 2 + 2 ^ k * x) (b / 2 + 2 ^ k * y)) (op a b)
          (g (a % 2) (b % 2)) (2 ^ k) (2 ^ suc k) (op x y) ih (step a b) double

pub and_byte :
    (a b x y : ℕ)
    → a < 256
    → b < 256
    → bit_and (a + 256 * x) (b + 256 * y) ≡ bit_and a b + 256 * bit_and x y
and_byte a b x y p q = op_fields bit_and min and_step refl 8 a b x y p q

pub xor_byte :
    (a b x y : ℕ)
    → a < 256
    → b < 256
    → bit_xor (a + 256 * x) (b + 256 * y) ≡ bit_xor a b + 256 * bit_xor x y
xor_byte a b x y p q = op_fields bit_xor differ xor_step refl 8 a b x y p q

and-le_fuel : (n a b : ℕ) → a ≤ n → bit_and a b ≤ a
and-le_fuel zero a b h =
    omega (arith, ap (λ (k : ℕ). bit_and k b) {x = a} {y = 0} (omega arith), bit_and-bitwise 0 b)
and-le_fuel (suc n) zero b h = omega (arith, bit_and-bitwise 0 b)
and-le_fuel (suc n) (suc a) b h =
    omega (arith, and_step (suc a) b, and-le_fuel n (suc a / 2) (b / 2) (omega arith))

pub and-le : (a b : ℕ) → bit_and a b ≤ a
and-le a b = and-le_fuel a a b (le_refl a)

or_zero_fuel : (n a b : ℕ) → a ≤ n → b ≤ n → bit_or a b ≡ 0 → (a ≡ 0) × (b ≡ 0)
or_zero_fuel zero a b p q h = omega arith
or_zero_fuel (suc n) a b p q h =
    let step = or_step a b in
    let halves = or_zero_fuel n (a / 2) (b / 2) (omega arith) (omega arith) (omega (arith, step)) in
    (omega (arith, step, halves.0), omega (arith, step, halves.1))

pub or_zero : (a b : ℕ) → bit_or a b ≡ 0 → (a ≡ 0) × (b ≡ 0)
or_zero a b h = or_zero_fuel (a + b) a b (omega arith) (omega arith) h

-- A test that holds of every number under a limit, which evaluation decides.
module _ (holds : ℕ → Bool) where
  unfoldable pub every_under : ℕ → Bool
  every_under zero = true
  every_under (suc limit) = every_under limit && holds limit

  pub every_under_lem : (limit v : ℕ) → v < limit → every_under limit ≡ true → holds v ≡ true
  unfolding every_under
  every_under_lem zero v inside checked = absurd (omega arith)
  every_under_lem (suc limit) v inside checked = ground (arith, every_under_lem limit v)
