-- ===== src/Parser/Text/Clean.antt =====
-- The words that the loops of src/ihtp_parser.c skip hold clean bytes only, so skipping them does
-- not change what a test of all bytes says.
use Prim.Native.Nat.{bit_or, bit_xor}
use iohttpparser.Base.Bits.{xor_byte, or_zero, every_under, every_under_lem}
use iohttpparser.Base.{
  ℕ, zero, suc, ◌+◌, ◌*◌, ◌≤◌, ◌<◌, ◌≡◌, ◌≢◌, refl, ap, ap₂, ◌∙◌, sym, arith, Bool, true, ◌&&◌, [],
  ◌∷◌, ◌++◌, Bytes, leb, ltb, ◌==◌, length, take, drop, take-append-drop, length-take, length-drop,
  Bool-cases, inl, inr, drop-drop,
}
use iohttpparser.Parser.Text.Words.{
  below, repeated, AllBytes, IsLimit, one, space, above_space, AllAtLeast, below_sound,
}
use iohttpparser.Parser.Text.{load, low_controls, has_del, skip_words, skip_word_pairs}

-- At or above the limit, and not DEL.
abbrev pub AllClean : ℕ → Bytes → Type 0
AllClean limit [] = Unit
AllClean limit (c ∷ cs) = (limit ≤ c) × (c ≢ 0x7f) × AllClean limit cs

abbrev flip : Bytes → Bytes
flip [] = []
flip (c ∷ cs) = bit_xor c 0x7f ∷ flip cs

length-flip : (bs : Bytes) → length (flip bs) ≡ length bs
length-flip [] = refl
length-flip (b ∷ bs) = ap suc (length-flip bs)

flip_table : every_under (λ c. ltb (bit_xor c 0x7f) 256) 256 ≡ true
unfolding every_under
flip_table = refl

flip-lt : (c : ℕ) → c < 256 → bit_xor c 0x7f < 256
flip-lt c h =
    let checked = every_under_lem (λ c. ltb (bit_xor c 0x7f) 256) 256 c h flip_table in ground arith

flip-AllBytes : (bs : Bytes) → AllBytes bs → AllBytes (flip bs)
flip-AllBytes [] all = tt
flip-AllBytes (b ∷ bs) all = (flip-lt b all.0, flip-AllBytes bs all.1)

xor-load :
    (bs : Bytes) → AllBytes bs → bit_xor (load bs) (repeated (length bs) 0x7f) ≡ load (flip bs)
unfolding load
xor-load [] all = refl
xor-load (b ∷ bs) all =
    xor_byte b 0x7f (load bs) (repeated (length bs) 0x7f) all.0 (omega arith)
    ∙ ap (λ (x : ℕ). bit_xor b 0x7f + 256 * x) (xor-load bs all.1)

flip-AllClean :
    (limit : ℕ) (bs : Bytes) → AllAtLeast limit bs → AllAtLeast 1 (flip bs) → AllClean limit bs
flip-AllClean limit [] low del = tt
flip-AllClean limit (b ∷ bs) low del = (
  low.0,
  (λ e. absurd (omega (arith, ap (λ (x : ℕ). bit_xor x 0x7f) e, del.0))),
  flip-AllClean limit bs low.1 del.1,
)

low_controls-below :
    {limit : ℕ} (l : IsLimit limit) (chunk : ℕ) → low_controls limit chunk ≡ below limit 8 chunk
unfolding low_controls below
low_controls-below one chunk = refl
low_controls-below space chunk = refl
low_controls-below above_space chunk = refl

has_del-below : (chunk : ℕ) → has_del chunk ≡ below 1 8 (bit_xor chunk (repeated 8 0x7f))
unfolding has_del below
has_del-below chunk = refl

pub word_sound :
    {limit : ℕ} (l : IsLimit limit) (bs : Bytes)
    → AllBytes bs
    → length bs ≡ 8
    → low_controls limit (load bs) ≡ 0
    → has_del (load bs) ≡ 0
    → AllClean limit bs
word_sound {limit} l bs all size low del =
    let low' : below limit (length bs) (load bs) ≡ 0 =
      ap (λ (n : ℕ). below limit n (load bs)) size ∙ sym (low_controls-below l (load bs)) ∙ low in
    let del' : below 1 (length (flip bs)) (load (flip bs)) ≡ 0 =
      ap₂ (λ (n x : ℕ). below 1 n x) (length-flip bs ∙ size)
        (sym (xor-load bs all) ∙ ap (λ (n : ℕ). bit_xor (load bs) (repeated n 0x7f)) size)
      ∙ sym (has_del-below (load bs))
      ∙ del in
    flip-AllClean limit bs (below_sound l bs all low')
      (below_sound one (flip bs) (flip-AllBytes bs all) del')

pub AllBytes-take : (n : ℕ) (bs : Bytes) → AllBytes bs → AllBytes (take n bs)
AllBytes-take zero bs all = tt
AllBytes-take (suc n) [] all = tt
AllBytes-take (suc n) (b ∷ bs) all = (all.0, AllBytes-take n bs all.1)

pub AllBytes-drop : (n : ℕ) (bs : Bytes) → AllBytes bs → AllBytes (drop n bs)
AllBytes-drop zero bs all = all
AllBytes-drop (suc n) [] all = tt
AllBytes-drop (suc n) (b ∷ bs) all = AllBytes-drop n bs all.1

-- A test `P` of all bytes that clean bytes in front do not change.
module _ {limit : ℕ} (l : IsLimit limit) (P : Bytes → Bool)
    (keep : (xs ys : Bytes) → AllClean limit xs → P (xs ++ ys) ≡ P ys) where
  skip_front :
      (buf : Bytes)
      → AllBytes buf
      → 8 ≤ length buf
      → low_controls limit (load (take 8 buf)) ≡ 0
      → has_del (load (take 8 buf)) ≡ 0
      → P (drop 8 buf) ≡ P buf
  skip_front buf all room low del =
      let clean =
        word_sound l (take 8 buf) (AllBytes-take 8 buf all) (omega (arith, length-take 8 buf)) low
          del in
      sym (keep (take 8 buf) (drop 8 buf) clean) ∙ ap P (take-append-drop 8 buf)

  pub skip_words_lem :
      (fuel : ℕ) (buf : Bytes) → AllBytes buf → P (skip_words limit fuel buf) ≡ P buf
  unfolding skip_words
  skip_words_lem zero buf all = refl
  skip_words_lem (suc fuel) buf all =
      let low = low_controls limit (load (take 8 buf)) in
      let del = has_del (load (take 8 buf)) in
      elim (Bool-cases (leb 8 (length buf) && bit_or low del == 0)) [
        | inl go ↦
            let flags = or_zero low del (ground arith) in
            rw (go, skip_words)
              (skip_words_lem fuel (drop 8 buf) (AllBytes-drop 8 buf all)
                ∙ skip_front buf all (ground arith) flags.0 flags.1)
        | inr stop ↦ rw (stop, skip_words) refl
      ]

-- The loop over two words, at the limit of field text.
module _ (P : Bytes → Bool) (keep : (xs ys : Bytes) → AllClean 0x20 xs → P (xs ++ ys) ≡ P ys) where
  pub skip_word_pairs_lem :
      (fuel : ℕ) (buf : Bytes) → AllBytes buf → P (skip_word_pairs fuel buf) ≡ P buf
  unfolding skip_word_pairs
  skip_word_pairs_lem zero buf all = refl
  skip_word_pairs_lem (suc fuel) buf all =
      let second = drop 8 buf in
      let low_a = low_controls 0x20 (load (take 8 buf)) in
      let del_a = has_del (load (take 8 buf)) in
      let low_b = low_controls 0x20 (load (take 8 second)) in
      let del_b = has_del (load (take 8 second)) in
      let flags = bit_or (bit_or (bit_or low_a del_a) low_b) del_b in
      elim (Bool-cases (leb 32 (length buf) && flags == 0)) [
        | inl go ↦
            let room : 32 ≤ length buf = ground arith in
            let (abc, d) = or_zero (bit_or (bit_or low_a del_a) low_b) del_b (ground arith) in
            let (ab, c) = or_zero (bit_or low_a del_a) low_b abc in
            let (a, b) = or_zero low_a del_a ab in
            rw (go, skip_word_pairs)
              (skip_word_pairs_lem fuel (drop 16 buf) (AllBytes-drop 16 buf all)
                ∙ ap P (sym (drop-drop 8 8 buf))
                ∙ skip_front space P keep second (AllBytes-drop 8 buf all)
                    (omega (arith, length-drop 8 buf)) c d
                ∙ skip_front space P keep buf all (omega (arith, room)) a b)
        | inr stop ↦ rw (stop, skip_word_pairs) refl
      ]

-- The four flags of a round of the loop over two words.
abbrev pair_flags : Bytes → ℕ
pair_flags buf =
    let chunk_a = load (take 8 buf) in
    let chunk_b = load (take 8 (drop 8 buf)) in
    bit_or
      (bit_or (bit_or (low_controls 0x20 chunk_a) (has_del chunk_a)) (low_controls 0x20 chunk_b))
      (has_del chunk_b)

pub skip_word_pairs-AllBytes :
    (fuel : ℕ) (buf : Bytes) → AllBytes buf → AllBytes (skip_word_pairs fuel buf)
unfolding skip_word_pairs
skip_word_pairs-AllBytes zero buf all = all
skip_word_pairs-AllBytes (suc fuel) buf all =
    step (skip_word_pairs-AllBytes fuel (drop 16 buf) (AllBytes-drop 16 buf all))
  where
    step : AllBytes (skip_word_pairs fuel (drop 16 buf)) → AllBytes (skip_word_pairs (suc fuel) buf)
    step later = elim (Bool-cases (leb 32 (length buf) && pair_flags buf == 0)) [
      | inl go ↦ rw (go, skip_word_pairs) later
      | inr stop ↦ rw (stop, skip_word_pairs) all
    ]
