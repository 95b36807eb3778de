-- ===== src/Semantics/Fields/Parts.antt =====
-- The white space around a part of a comma-separated list, in src/ihtp_semantics.c.
use iohttpparser.Base.{
  ℕ, zero, suc, ◌+◌, ◌-◌, ◌<◌, ◌≡◌, ◌≢◌, refl, ap, sym, ◌∙◌, arith, true, false, [], ◌∷◌, ◌++◌,
  Bytes, length, get_or, length-append, get_or-append_left, take_left, append-nil,
}
use iohttpparser.Chars.{is_lws}
use iohttpparser.Parser.Line.Print.{AllLws, white_at, get_or_right}
use iohttpparser.Semantics.Fields.{skip_lws, trimmed_len, trim_end, trim_part}

-- A part of a list as it is written: white space, its text, white space.
pub record Part : Type 0 where
  pub before : Bytes
  pub text : Bytes
  pub after : Bytes

abbrev pub print_part : Part → Bytes
print_part p = p.before ++ (p.text ++ p.after)

abbrev pub NoComma : Bytes → Type 0
NoComma [] = Unit
NoComma (c ∷ cs) = (c ≢ b',') × NoComma cs

-- The text has no comma, and no white space at its ends.
pub record IsPart (p : Part) : Type 0 where
  pub white_before : AllLws p.before
  pub white_after : AllLws p.after
  pub text_start : is_lws (get_or p.text 0 0) ≡ false
  pub text_end : is_lws (get_or p.text (length p.text - 1) 0) ≡ false
  pub no_comma : NoComma p.text

NoComma-append : (xs ys : Bytes) → NoComma xs → NoComma ys → NoComma (xs ++ ys)
NoComma-append [] ys p q = q
NoComma-append (x ∷ xs) ys p q = (p.0, NoComma-append xs ys p.1 q)

AllLws-NoComma : (xs : Bytes) → AllLws xs → NoComma xs
unfolding is_lws
AllLws-NoComma [] all = tt
AllLws-NoComma (c ∷ cs) all = (λ e. ground (arith, all.0), AllLws-NoComma cs all.1)

pub print_part-NoComma : (p : Part) → IsPart p → NoComma (print_part p)
print_part-NoComma p i =
    NoComma-append p.before (p.text ++ p.after) (AllLws-NoComma p.before i.white_before)
      (NoComma-append p.text p.after i.no_comma (AllLws-NoComma p.after i.white_after))

skip_lws-append : (xs ys : Bytes) → AllLws xs → skip_lws (xs ++ ys) ≡ skip_lws ys
unfolding skip_lws
skip_lws-append [] ys all = refl
skip_lws-append (c ∷ cs) ys all = rw (skip_lws, all.0) (skip_lws-append cs ys all.1)

skip_lws_stop :
    (c : ℕ) (cs after : Bytes) → is_lws c ≡ false → skip_lws (c ∷ cs ++ after) ≡ c ∷ cs ++ after
unfolding skip_lws
skip_lws_stop c cs after stop = rw (skip_lws, stop) refl

trimmed_len_white :
    (part : Bytes) (n k : ℕ)
    → ((j : ℕ) → j < k → is_lws (get_or part (n + j) 0) ≡ true)
    → trimmed_len part (n + k) ≡ trimmed_len part n
unfolding trimmed_len
trimmed_len_white part n zero white =
    ap (λ (m : ℕ). trimmed_len part m) {x = n + 0} {y = n} (omega arith)
trimmed_len_white part n (suc k) white =
    ap (λ (m : ℕ). trimmed_len part m) {x = n + suc k} {y = suc (n + k)} (omega arith)
    ∙ rw (trimmed_len, white k (omega arith))
        (trimmed_len_white part n k (λ j lt. white j (omega arith)))

trimmed_len_stop :
    (part : Bytes) (n : ℕ) → 0 < n → is_lws (get_or part (n - 1) 0) ≡ false → trimmed_len part n ≡ n
unfolding trimmed_len
trimmed_len_stop part zero pos stop = absurd (omega arith)
trimmed_len_stop part (suc n) pos stop =
    let same : is_lws (get_or part n 0) ≡ false =
      ap (λ (k : ℕ). is_lws (get_or part k 0)) {y = suc n - 1} (omega arith) ∙ stop in
    rw (trimmed_len, same) refl

trim_end-append :
    (text after : Bytes)
    → 0 < length text
    → AllLws after
    → is_lws (get_or text (length text - 1) 0) ≡ false
    → trim_end (text ++ after) ≡ text
unfolding trim_end
trim_end-append text after pos all stop =
    let part = text ++ after in
    let white : (j : ℕ) → j < length after → is_lws (get_or part (length text + j) 0) ≡ true =
      λ j lt. ap is_lws (get_or_right text after j) ∙ white_at after j all lt in
    let last : is_lws (get_or part (length text - 1) 0) ≡ false =
      ap is_lws (get_or-append_left text after (length text - 1) 0 (omega arith)) ∙ stop in
    let size : trimmed_len part (length part) ≡ length text =
      ap (trimmed_len part) (length-append text after)
      ∙ trimmed_len_white part (length text) (length after) white
      ∙ trimmed_len_stop part (length text) pos last in
    rw (trim_end, size) (take_left text after (length text) refl)

-- What the code takes of a written part is its text.
pub trim_part-print : (p : Part) → IsPart p → trim_part (print_part p) ≡ p.text
unfolding trim_part skip_lws trim_end
trim_part-print p i =
    ap trim_end (skip_lws-append p.before (p.text ++ p.after) i.white_before)
    ∙ by_text p.text i.text_start i.text_end
  where
    by_text :
        (text : Bytes)
        → is_lws (get_or text 0 0) ≡ false
        → is_lws (get_or text (length text - 1) 0) ≡ false
        → trim_end (skip_lws (text ++ p.after)) ≡ text
    by_text [] start stop =
        ap (λ xs. trim_end (skip_lws xs)) (sym (append-nil p.after))
        ∙ ap trim_end (skip_lws-append p.after [] i.white_after)
    by_text (c ∷ cs) start stop =
        ap trim_end (skip_lws_stop c cs p.after start)
        ∙ trim_end-append (c ∷ cs) p.after (omega arith) i.white_after stop
