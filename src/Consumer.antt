-- ===== src/Consumer.antt =====
-- How a consumer uses the library: the scenarios of bench/bench_extended_contract.c and the
-- entry points of bench/bench_throughput_compare.c that call it.
pub mod Requests
pub mod Responses
pub mod Reuse
pub mod Pipeline
pub mod Compare
use iohttpparser.Base.{
  ℕ, zero, suc, ◌+◌, ◌-◌, Bool, true, false, Option, none, some, [], ◌∷◌, Bytes, codes, ltb, ◌==◌,
  if◌then◌else◌, length, take, drop, bytes_eq,
}
use iohttpparser.Body.Chunked.{ChunkedDecoder, ChunkStatus, Return, zero_decoder, decode_chunked}
use iohttpparser.Parser.Stateful.{Parsed}
use iohttpparser.Scanner.{strlen}
use iohttpparser.Types.{Status, ok, incomplete, error, error_too_long, error_too_many_headers}

-- What a scenario returns: `true` with what it leaves in its output parameters, or `false`. Or it
-- reads outside of its arrays, or the fuel ran out in a call.
pub data Outcome {ℓ} (A : Type ℓ) : Type ℓ where
  success : A → Outcome A
  failure : Outcome A
  undefined_behaviour : Outcome A
  unfinished : Outcome A

infixl 5 ◌>>=◌ ◌>>◌
abbrev pub ◌>>=◌ {ℓ κ} : {A : Type ℓ} {B : Type κ} → Outcome A → (A → Outcome B) → Outcome B
success a >>= f = f a
failure >>= f = failure
undefined_behaviour >>= f = undefined_behaviour
unfinished >>= f = unfinished

abbrev pub ◌>>◌ {ℓ} : {B : Type ℓ} → Outcome (Unit {0}) → Outcome B → Outcome B
m >> k = m >>= λ _. k

-- `if (!test) return false;`
abbrev pub guard : Bool → Outcome (Unit {0})
guard true = success tt
guard false = failure

abbrev pub is_ok : Status → Bool
is_ok ok = true
is_ok _ = false

abbrev pub is_error : Status → Bool
is_error error = true
is_error _ = false

-- What the code relies on without a test of it.
abbrev pub needs : Bool → Outcome (Unit {0})
needs true = success tt
needs false = undefined_behaviour

-- `if (call != IHTP_OK) return false;`
abbrev pub parsed : {A : Type 0} → Option (Parsed A) → Outcome (Parsed A)
parsed none = unfinished
parsed (some p) = if is_ok p.status then success p else failure

abbrev pub applied : {A : Type 0} → Status × A → Outcome A
applied (status, out) = if is_ok status then success out else failure

-- The decoded payload with `trailing`, and behind it the bytes that were not read.
pub record Body : Type 0 where
  pub buf : Bytes
  pub body_len : ℕ
  pub trailing : ℕ

abbrev pub decoded_status : Return → ChunkStatus → Outcome Body
decoded_status r (ChunkStatus.complete n) =
    success (record { buf = r.buf; body_len = r.bufsz; trailing = n })
decoded_status r ChunkStatus.incomplete = failure
decoded_status r ChunkStatus.error = failure

abbrev decoded : Option Return → Outcome Body
decoded none = unfinished
decoded (some r) = decoded_status r r.status

-- The body behind `consumed` is copied into `char tail[size]` and decoded there. The `size` is below
-- 2 ^ 31, so a byte count that is returned is not negative as a C `int`.
unfoldable pub decode_tail : ℕ → Bool → Bytes → ℕ → Outcome Body
decode_tail size consume_trailer wire consumed = do
  guard (ltb (length wire - consumed) size)
  decoded (decode_chunked (zero_decoder consume_trailer) (drop consumed wire))

-- `strstr`: the offset of the first occurrence in a C string.
unfoldable pub strstr : Bytes → Bytes → Option ℕ
strstr [] needle = if bytes_eq (take (length needle) []) needle then some 0 else none
strstr (c ∷ cs) needle =
    let later : Option ℕ = elim (strstr cs needle) [ none ↦ none | some i ↦ some (suc i) ] in
    if bytes_eq (take (length needle) (c ∷ cs)) needle
    then some 0
    else if c == 0
    then none
    else later

-- The C string at the front of an array, which has to hold a NUL.
unfoldable pub terminated_string : Bytes → Outcome Bytes
terminated_string array =
    needs (ltb (strlen array) (length array)) >> success (take (strlen array) array)

abbrev pub found : Option ℕ → Outcome ℕ
found none = failure
found (some i) = success i

abbrev pub blank_line : Bytes
blank_line = codes "\r\n\r\n"
