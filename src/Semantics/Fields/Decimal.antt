-- ===== src/Semantics/Fields/Decimal.antt =====
-- `parse_content_length` of src/ihtp_semantics.c against decimal numbers.
use iohttpparser.Base.{
  ℕ, ◌+◌, ◌-◌, ◌*◌, ◌/◌, ◌^◌, ◌≤◌, ◌<◌, ◌≡◌, refl, arith, Bool, true, false, not, ◌&&◌, Option,
  none, some, [], ◌∷◌, Bytes, ltb, if◌then◌else◌, length, Bool-cases, inl, inr,
}
use iohttpparser.Chars.{is_digit}
use iohttpparser.Semantics.Fields.{content_length_from, parse_content_length, uint64_max}

-- The number that digits stand for, behind digits that stand for `acc`.
abbrev pub decimal_from : ℕ → Bytes → ℕ
decimal_from acc [] = acc
decimal_from acc (c ∷ cs) = decimal_from (acc * 10 + (c - b'0')) cs

abbrev pub all_digits : Bytes → Bool
all_digits [] = true
all_digits (c ∷ cs) = is_digit c && all_digits cs

decimal_from-le : (acc : ℕ) (cs : Bytes) → acc ≤ decimal_from acc cs
decimal_from-le acc [] = omega arith
decimal_from-le acc (c ∷ cs) = omega (arith, decimal_from-le (acc * 10 + (c - b'0')) cs)

-- The number of the digits if they are digits and it fits.
abbrev pub number_if_small : ℕ → Bytes → Option ℕ
number_if_small acc cs =
    if all_digits cs && ltb (decimal_from acc cs) (2 ^ 64) then some (decimal_from acc cs) else none

-- The test for the overflow, which divides, is exact.
overflow_test :
    (acc digit : ℕ)
    → digit < 10
    → ltb ((uint64_max - digit) / 10) acc ≡ not (ltb (acc * 10 + digit) (2 ^ 64))
overflow_test acc digit small = ground arith

digit_small : (c : ℕ) → is_digit c ≡ true → c - b'0' < 10
unfolding is_digit
digit_small c h = ground arith

none_either : (n : ℕ) (b : Bool) → none ≡ (if b && false then some n else none)
none_either n true = refl
none_either n false = refl

content_length_from_lem :
    (cs : Bytes) (acc : ℕ) → acc < 2 ^ 64 → content_length_from acc cs ≡ number_if_small acc cs
unfolding content_length_from
content_length_from_lem [] acc small =
    let fits : ltb acc (2 ^ 64) ≡ true = ground arith in rw fits refl
content_length_from_lem (c ∷ cs) acc small = elim (Bool-cases (is_digit c)) [
  | inr other ↦ rw other refl
  | inl digit ↦
      let next = acc * 10 + (c - b'0') in
      let test = overflow_test acc (c - b'0') (digit_small c digit) in
      elim (Bool-cases (ltb next (2 ^ 64))) [
        | inl fits ↦ rw (digit, test, fits) (content_length_from_lem cs next (ground arith))
        | inr big ↦
            let more : ltb (decimal_from next cs) (2 ^ 64) ≡ false =
              ground (arith, decimal_from-le next cs) in
            rw (digit, test, big, more) (none_either (decimal_from next cs) (all_digits cs))
      ]
]

-- A Content-Length value is accepted exactly when it is not empty, all its bytes are digits, and
-- the decimal number is below 2 ^ 64; the result is that number.
pub parse_content_length_lem :
    (value : Bytes)
    → parse_content_length value ≡ (
        if ltb 0 (length value) && all_digits value && ltb (decimal_from 0 value) (2 ^ 64)
        then some (decimal_from 0 value)
        else none)
unfolding parse_content_length
parse_content_length_lem [] = refl
parse_content_length_lem (c ∷ cs) =
    let nonempty : ltb 0 (length (c ∷ cs)) ≡ true = ground arith in
    rw nonempty (content_length_from_lem (c ∷ cs) 0 (omega arith))
