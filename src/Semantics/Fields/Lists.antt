-- ===== src/Semantics/Fields/Lists.antt =====
-- The comma-separated lists that src/ihtp_semantics.c reads: Transfer-Encoding, Connection, Trailer.
use iohttpparser.Base.{
  ℕ, zero, suc, ◌+◌, ◌<◌, ◌≡◌, refl, ap, ◌∙◌, arith, Option, none, some, List, [], ◌∷◌, ◌++◌, Bytes,
  length, drop, length-append, drop_left, Option-cases, inl, inr,
}
use iohttpparser.Semantics.Fields.{trim_part, up_to_comma, for_each_part, parse_parts}
use iohttpparser.Semantics.Fields.Parts.{
  Part, IsPart, NoComma, print_part, print_part-NoComma, trim_part-print,
}

abbrev pub AllNoComma : List Bytes → Type 0
AllNoComma [] = Unit
AllNoComma (p ∷ ps) = NoComma p × AllNoComma ps

-- The parts with a comma between any two.
abbrev pub join : Bytes → List Bytes → Bytes
join p [] = p
join p (q ∷ ps) = p ++ b',' ∷ join q ps

abbrev pub last_part : Bytes → List Bytes → Bytes
last_part p [] = p
last_part p (q ∷ ps) = last_part q ps

abbrev pub AllParts : List Part → Type 0
AllParts [] = Unit
AllParts (p ∷ ps) = IsPart p × AllParts ps

abbrev pub print_parts : List Part → List Bytes
print_parts [] = []
print_parts (p ∷ ps) = print_part p ∷ print_parts ps

print_parts-AllNoComma : (ps : List Part) → AllParts ps → AllNoComma (print_parts ps)
print_parts-AllNoComma [] all = tt
print_parts-AllNoComma (p ∷ ps) all = (print_part-NoComma p all.0, print_parts-AllNoComma ps all.1)

up_to_comma_alone : (p : Bytes) → NoComma p → up_to_comma p ≡ p
unfolding up_to_comma
up_to_comma_alone [] plain = refl
up_to_comma_alone (c ∷ cs) plain = ground (arith, up_to_comma_alone cs)

up_to_comma-append : (p rest : Bytes) → NoComma p → up_to_comma (p ++ b',' ∷ rest) ≡ p
unfolding up_to_comma
up_to_comma-append [] rest plain = refl
up_to_comma-append (c ∷ cs) rest plain = ground (arith, up_to_comma-append cs rest)

join-length : (p : Bytes) (ps : List Bytes) → 0 < length (last_part p ps) → 0 < length (join p ps)
join-length p [] h = h
join-length p (q ∷ ps) h = omega (arith, length-append p (b',' ∷ join q ps))

drop_all : (p : Bytes) → drop (length p) p ≡ []
drop_all [] = refl
drop_all (c ∷ cs) = drop_all cs

drop_past : (p rest : Bytes) → drop (length p + 1) (p ++ b',' ∷ rest) ≡ rest
drop_past [] rest = refl
drop_past (c ∷ cs) rest =
    ap (λ (n : ℕ). drop n (c ∷ cs ++ b',' ∷ rest)) {y = suc (length cs + 1)} (omega arith)
    ∙ drop_past cs rest

module _ {S : Type 0} (step : S → Bytes → Option S) where
  -- The steps on the parts, one behind the other.
  abbrev pub fold_trimmed : S → List Bytes → Option S
  fold_trimmed s [] = some s
  fold_trimmed s (p ∷ ps) = elim (step s (trim_part p)) [
    | none ↦ none
    | some s' ↦ fold_trimmed s' ps
  ]

  -- A round, when the part and what is behind it are known.
  round_alone :
      (fuel : ℕ) (s : S) (value : Bytes)
      → 0 < length value
      → up_to_comma value ≡ value
      → drop (length value) value ≡ []
      → for_each_part step (suc fuel) s value ≡ fold_trimmed s (value ∷ [])
  unfolding for_each_part
  round_alone fuel s [] some_byte part behind = absurd (omega arith)
  round_alone fuel s (c ∷ cs) some_byte part behind =
      elim (Option-cases (step s (trim_part (c ∷ cs)))) [
        | inl e ↦ rw (for_each_part, fold_trimmed, part, e) refl
        | inr (s', e) ↦ rw (for_each_part, fold_trimmed, part, e, part, behind) refl
      ]

  round_more :
      (fuel : ℕ) (s : S) (p rest value : Bytes)
      → 0 < length rest
      → 0 < length value
      → up_to_comma value ≡ p
      → drop (length p) value ≡ b',' ∷ rest
      → drop (length p + 1) value ≡ rest
      → for_each_part step (suc fuel) s value
        ≡ (elim (step s (trim_part p)) [ none ↦ none | some s' ↦ for_each_part step fuel s' rest ])
  unfolding for_each_part
  round_more fuel s p rest [] some_rest some_byte part comma behind = absurd (omega arith)
  round_more fuel s p [] value some_rest some_byte part comma behind = absurd (omega arith)
  round_more fuel s p (r ∷ rest) (c ∷ cs) some_rest some_byte part comma behind =
      elim (Option-cases (step s (trim_part p))) [
        | inl e ↦ rw (for_each_part, part, e) refl
        | inr (s', e) ↦ rw (for_each_part, part, e, part, comma, part, behind) refl
      ]

  for_each_part-join :
      (fuel : ℕ) (s : S) (p : Bytes) (ps : List Bytes)
      → AllNoComma (p ∷ ps)
      → 0 < length (last_part p ps)
      → length (join p ps) < fuel
      → for_each_part step fuel s (join p ps) ≡ fold_trimmed s (p ∷ ps)
  for_each_part-join zero s p ps plain some_last enough = absurd (omega arith)
  for_each_part-join (suc fuel) s p [] plain some_last enough =
      round_alone fuel s p some_last (up_to_comma_alone p plain.0) (drop_all p)
  for_each_part-join (suc fuel) s p (q ∷ ps) plain some_last enough =
      let rest = join q ps in
      let value = p ++ b',' ∷ rest in
      let size : length value ≡ length p + suc (length rest) = length-append p (b',' ∷ rest) in
      round_more fuel s p rest value (join-length q ps some_last) (omega (arith, size))
        (up_to_comma-append p rest plain.0) (drop_left p (b',' ∷ rest) (length p) refl)
        (drop_past p rest)
      ∙ by_step (step s (trim_part p))
          (λ s'. for_each_part-join fuel s' q ps plain.1 some_last (omega (arith, size)))
    where
      by_step :
          (o : Option S)
          → ((s' : S) → for_each_part step fuel s' (join q ps) ≡ fold_trimmed s' (q ∷ ps))
          → (elim o [ none ↦ none | some s' ↦ for_each_part step fuel s' (join q ps) ])
            ≡ (elim o [ none ↦ none | some s' ↦ fold_trimmed s' (q ∷ ps) ])
      by_step none rest = refl
      by_step (some s') rest = rest s'

  -- The steps on the texts of the parts.
  abbrev pub fold_texts : S → List Part → Option S
  fold_texts s [] = some s
  fold_texts s (p ∷ ps) = elim (step s p.text) [ none ↦ none | some s' ↦ fold_texts s' ps ]

  fold_trimmed-print :
      (s : S) (ps : List Part) → AllParts ps → fold_trimmed s (print_parts ps) ≡ fold_texts s ps
  fold_trimmed-print s [] all = refl
  fold_trimmed-print s (p ∷ ps) all =
      ap (λ text. elim (step s text) [ none ↦ none | some s' ↦ fold_trimmed s' (print_parts ps) ])
        (trim_part-print p all.0)
      ∙ by_step (step s p.text) (λ s'. fold_trimmed-print s' ps all.1)
    where
      by_step :
          (o : Option S)
          → ((s' : S) → fold_trimmed s' (print_parts ps) ≡ fold_texts s' ps)
          → (elim o [ none ↦ none | some s' ↦ fold_trimmed s' (print_parts ps) ])
            ≡ (elim o [ none ↦ none | some s' ↦ fold_texts s' ps ])
      by_step none rest = refl
      by_step (some s') rest = rest s'

  -- A list of parts with a comma between any two. Each part is written as a text without commas
  -- and without white space at its ends, with white space before and behind it; the last part is
  -- not written as nothing at all. The parsers take the texts in their order, without the white
  -- space around them, and stop at the first one that is refused.
  pub parse_parts-join :
      (s : S) (p : Part) (ps : List Part)
      → AllParts (p ∷ ps)
      → 0 < length (last_part (print_part p) (print_parts ps))
      → parse_parts step s (join (print_part p) (print_parts ps)) ≡ fold_texts s (p ∷ ps)
  unfolding parse_parts
  parse_parts-join s p ps all some_last =
      for_each_part-join (length (join (print_part p) (print_parts ps)) + 1) s (print_part p)
        (print_parts ps) (print_parts-AllNoComma (p ∷ ps) all) some_last (omega arith)
      ∙ fold_trimmed-print s (p ∷ ps) all
