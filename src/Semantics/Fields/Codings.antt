-- ===== src/Semantics/Fields/Codings.antt =====
-- The values of Transfer-Encoding that `parse_transfer_encoding` of src/ihtp_semantics.c accepts.
use iohttpparser.Base.{
  ℕ, ◌+◌, ◌<◌, ◌≡◌, refl, ap, ◌∙◌, arith, Bool, true, false, none, some, List, [], ◌∷◌, ◌++◌, Bytes,
  codes, if◌then◌else◌, length, length-append, memchr, bytes_eq, Bool-cases, inl, inr,
}
use iohttpparser.Parser.Print.{Without}
use iohttpparser.Semantics.Fields.{
  lower, same_ignore_case, bytes_eq_ignore_case, TransferEncoding, coding_of, coding_step,
  parse_transfer_encoding,
}
use iohttpparser.Semantics.Fields.Lists.{
  join, AllParts, print_parts, last_part, fold_texts, parse_parts-join,
}
use iohttpparser.Semantics.Fields.Parts.{Part, print_part}

abbrev pub lowered : Bytes → Bytes
lowered [] = []
lowered (c ∷ cs) = lower c ∷ lowered cs

-- The text is `chunked`, with letters in either case.
abbrev pub names_chunked : Bytes → Bool
names_chunked text = bytes_eq (lowered text) (codes "chunked")

abbrev pub last_text : Part → List Part → Bytes
last_text p [] = p.text
last_text p (q ∷ ps) = last_text q ps

-- How many of the parts are `chunked`.
abbrev pub count_chunked : List Part → ℕ
count_chunked [] = 0
count_chunked (p ∷ ps) = (if names_chunked p.text then 1 else 0) + count_chunked ps

bytes_eq_ignore_case_lem :
    (text lit : Bytes) → bytes_eq_ignore_case text lit ≡ bytes_eq (lowered text) (lowered lit)
unfolding bytes_eq_ignore_case same_ignore_case bytes_eq
bytes_eq_ignore_case_lem [] [] = refl
bytes_eq_ignore_case_lem [] (d ∷ lit) = ground arith
bytes_eq_ignore_case_lem (c ∷ cs) [] = ground arith
bytes_eq_ignore_case_lem (c ∷ cs) (d ∷ lit) = ground (arith, bytes_eq_ignore_case_lem cs lit)

memchr-none : (c : ℕ) (xs : Bytes) → Without c xs → memchr c xs ≡ none
unfolding memchr
memchr-none c [] free = refl
memchr-none c (x ∷ xs) free = ground (arith, memchr-none c xs free.1, free.0)

-- What the loop holds once it has seen a coding.
abbrev after_codings : Bool → ℕ → TransferEncoding
after_codings final count = record {
  saw_coding = true;
  final_chunked = final;
  chunked_count = count;
}

with_count :
    (final : Bool) (m n : ℕ) → m ≡ n → some (after_codings final m) ≡ some (after_codings final n)
with_count final m n same = ap (λ (k : ℕ). some (after_codings final k)) same

module _ (is_token : Bytes → Bool) where
  -- A coding: a token that is not empty, without parameters.
  pub record IsCoding (p : Part) : Type 0 where
    pub some_text : 0 < length p.text
    pub token : is_token p.text ≡ true
    pub plain : Without b';' p.text

  abbrev pub AllCodings : List Part → Type 0
  AllCodings [] = Unit
  AllCodings (p ∷ ps) = IsCoding p × AllCodings ps

  coding_step_lem :
      (t : TransferEncoding) (text : Bytes)
      → 0 < length text
      → is_token text ≡ true
      → Without b';' text
      → coding_step is_token t text
        ≡ some (
            after_codings
              (names_chunked text)
              (t.chunked_count + (if names_chunked text then 1 else 0)))
  unfolding coding_step coding_of
  coding_step_lem t [] pos token plain = absurd (omega arith)
  coding_step_lem t (c ∷ cs) pos token plain =
      let same : bytes_eq_ignore_case (c ∷ cs) (codes "chunked") ≡ names_chunked (c ∷ cs) =
        bytes_eq_ignore_case_lem (c ∷ cs) (codes "chunked") in
      elim (Bool-cases (names_chunked (c ∷ cs))) [
        | inl named ↦
            rw (coding_step, coding_of, memchr-none b';' (c ∷ cs) plain, token, same, named) refl
        | inr other ↦
            rw (coding_step, coding_of, memchr-none b';' (c ∷ cs) plain, token, same, other)
              (with_count false t.chunked_count (t.chunked_count + 0) (omega arith))
      ]

  fold_codings :
      (t : TransferEncoding) (p : Part) (ps : List Part)
      → AllCodings (p ∷ ps)
      → fold_texts (coding_step is_token) t (p ∷ ps)
        ≡ some (
            after_codings
              (names_chunked (last_text p ps))
              (t.chunked_count + count_chunked (p ∷ ps)))
  fold_codings t p [] all =
      let i = all.0 in
      let x : ℕ = if names_chunked p.text then 1 else 0 in
      rw (fold_texts, coding_step_lem t p.text i.some_text i.token i.plain)
        (with_count (names_chunked p.text) (t.chunked_count + x) (t.chunked_count + (x + 0))
          (omega arith))
  fold_codings t p (q ∷ ps) all =
      let i = all.0 in
      let x : ℕ = if names_chunked p.text then 1 else 0 in
      let n = count_chunked (q ∷ ps) in
      let s = after_codings (names_chunked p.text) (t.chunked_count + x) in
      rw (fold_texts, coding_step_lem t p.text i.some_text i.token i.plain)
        (fold_codings s q ps all.1
          ∙ with_count (names_chunked (last_text q ps)) (t.chunked_count + x + n)
              (t.chunked_count + (x + n)) (omega arith))

  some_last :
      (p : Part) (ps : List Part)
      → AllCodings (p ∷ ps)
      → 0 < length (last_part (print_part p) (print_parts ps))
  some_last p [] all = omega (
    arith,
    all.0.some_text,
    length-append p.before (p.text ++ p.after),
    length-append p.text p.after,
  )
  some_last p (q ∷ ps) all = some_last q ps all.1

  -- A Transfer-Encoding value: parts with a comma between any two, each of them a token that is not
  -- empty and has no `;` (a coding without parameters), with white space before and behind it. The
  -- value is accepted; it ends in chunked exactly when its last coding is `chunked`, with letters in
  -- either case, and it counts the codings that are `chunked`.
  pub parse_transfer_encoding-join :
      (p : Part) (ps : List Part)
      → AllParts (p ∷ ps)
      → AllCodings (p ∷ ps)
      → parse_transfer_encoding is_token (join (print_part p) (print_parts ps))
        ≡ some (names_chunked (last_text p ps), count_chunked (p ∷ ps))
  unfolding parse_transfer_encoding
  parse_transfer_encoding-join p ps parts all =
      let start : TransferEncoding = record {
        saw_coding = false;
        final_chunked = false;
        chunked_count = 0;
      } in
      let read =
        parse_parts-join (coding_step is_token) start p ps parts (some_last p ps all)
        ∙ fold_codings start p ps all
        ∙ with_count (names_chunked (last_text p ps)) (0 + count_chunked (p ∷ ps))
            (count_chunked (p ∷ ps)) (omega arith) in
      rw (parse_transfer_encoding, read) refl
