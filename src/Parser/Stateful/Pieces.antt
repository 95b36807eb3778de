-- ===== src/Parser/Stateful/Pieces.antt =====
-- The stateful entry points of src/ihtp_parser.c, called again and again while a message comes in.
pub mod EntryPoints
use iohttpparser.Base.{
  ℕ, ◌+◌, ◌≤◌, ◌≡◌, ◌≢◌, refl, ap, sym, ◌∙◌, arith, Option, none, some, List, [], ◌∷◌, ◌++◌, Bytes,
  length, length-append, some-≡, append_assoc, append-nil, subst, inl, inr, ◌⊎◌,
}
use iohttpparser.Parser.Stateful.{Parsed}
use iohttpparser.Parser.Stateful.HeadersPhase.{SameResult, equal, both_failed}
use iohttpparser.Parser.Stateful.Totality.{Returned}
use iohttpparser.Types.{
  Status, ok, incomplete, error, error_too_long, error_too_many_headers, ParserState,
}

-- What the loop below asks of an entry point with an output `A`: it returns, the cursor stays in
-- the buffer, an answer other than `INCOMPLETE` and `TOO_LONG` is final, and after `INCOMPLETE` the
-- next call does what one call on the longer buffer does.
pub record EntryPoint (A : Type 0) : Type 0 where
  pub call : ParserState → Bytes → A → ℕ → Option (Parsed A)
  pub returns :
      (state : ParserState) (buf : Bytes) (out : A) (consumed : ℕ)
      → Returned (call state buf out consumed)
  pub reach :
      (state : ParserState) (buf : Bytes) (out : A) (consumed : ℕ) (p : Parsed A)
      → state.cursor ≤ length buf
      → call state buf out consumed ≡ some p
      → p.state.cursor ≤ length buf
  pub append :
      (state : ParserState) (xs ys : Bytes) (out : A) (consumed : ℕ) (p : Parsed A)
      → state.cursor ≤ length xs
      → call state xs out consumed ≡ some p
      → p.status ≢ incomplete
      → p.status ≢ error_too_long
      → call state (xs ++ ys) out consumed ≡ some p
  pub resume :
      (state : ParserState) (xs ys : Bytes) (out : A) (consumed consumed' consumed'' : ℕ)
      (first : Parsed A)
      → state.cursor ≤ length xs
      → call state xs out consumed ≡ some first
      → first.status ≡ incomplete
      → (second whole : Parsed A) × (call first.state (xs ++ ys) first.out consumed' ≡ some second)
        × (call state (xs ++ ys) out consumed'' ≡ some whole)
        × SameResult second whole

-- What the caller does with an answer.
abbrev on_answer {ℓ} : {A : Type ℓ} → Status → A → A → A
on_answer incomplete call_again give_up = call_again
on_answer _ call_again give_up = give_up

-- The caller's loop: while the answer is `INCOMPLETE` and there is another piece, put the piece
-- behind the buffer and call again.
unfoldable pub feed :
    {A : Type 0}
    → (ParserState → Bytes → A → ℕ → Option (Parsed A))
    → List Bytes
    → ParserState
    → Bytes
    → A
    → ℕ
    → Option (Parsed A)
feed call [] state buf out consumed = call state buf out consumed
feed call (ys ∷ pieces) state buf out consumed = elim (call state buf out consumed) [
  | none ↦ none
  | some p ↦
      on_answer p.status (feed call pieces p.state (buf ++ ys) p.out p.bytes_consumed) (some p)
]

abbrev pub joined : List Bytes → Bytes
joined [] = []
joined (ys ∷ pieces) = ys ++ joined pieces

SameResult-trans :
    {A : Type 0} {p q r : Parsed A} → SameResult p q → SameResult q r → SameResult p r
SameResult-trans (equal e) (equal e') = equal (e ∙ e')
SameResult-trans {r = r} (equal e) (both_failed s a b) =
    subst (λ x. SameResult x r) (sym e) (both_failed s a b)
SameResult-trans {p = p} (both_failed s a b) (equal e) = subst (SameResult p) e (both_failed s a b)
SameResult-trans (both_failed s a b) (both_failed s' a' b') = both_failed (s ∙ s') a b'

on_answer_stop :
    {A : Type 0} (status : Status) (again stop : A)
    → status ≢ incomplete
    → on_answer status again stop ≡ stop
on_answer_stop ok again stop h = refl
on_answer_stop incomplete again stop h = absurd (h refl)
on_answer_stop error again stop h = refl
on_answer_stop error_too_long again stop h = refl
on_answer_stop error_too_many_headers again stop h = refl

incomplete_dec : (status : Status) → (status ≡ incomplete) ⊎ (status ≢ incomplete)
incomplete_dec ok = inr (cc)
incomplete_dec incomplete = inl refl
incomplete_dec error = inr (cc)
incomplete_dec error_too_long = inr (cc)
incomplete_dec error_too_many_headers = inr (cc)

too_long_dec : (status : Status) → (status ≡ error_too_long) ⊎ (status ≢ error_too_long)
too_long_dec ok = inr (cc)
too_long_dec incomplete = inr (cc)
too_long_dec error = inr (cc)
too_long_dec error_too_long = inl refl
too_long_dec error_too_many_headers = inr (cc)

-- The loop and one call on all bytes: unless the loop ends with `TOO_LONG`, a caller sees no
-- difference.
pub record Agrees {A : Type 0} (fed whole : Option (Parsed A)) : Type 0 where
  pub p : Parsed A
  pub q : Parsed A
  pub fed_is : fed ≡ some p
  pub whole_is : whole ≡ some q
  pub same : (p.status ≡ error_too_long) ⊎ SameResult p q

module _ {A : Type 0} (entry : EntryPoint A) where
  module _ (ys : Bytes) (pieces : List Bytes) (state : ParserState) (buf : Bytes) (out : A)
      (consumed : ℕ) (p : Parsed A) (call : entry.call state buf out consumed ≡ some p) where
    abbrev fed : Option (Parsed A)
    fed = feed entry.call (ys ∷ pieces) state buf out consumed

    feed_more :
        p.status ≡ incomplete
        → fed ≡ feed entry.call pieces p.state (buf ++ ys) p.out p.bytes_consumed
    unfolding feed
    feed_more more = rw (feed, call, more) refl

    feed_stop : p.status ≢ incomplete → fed ≡ some p
    unfolding feed
    feed_stop stop = rw (feed, call) (on_answer_stop p.status _ _ stop)

    -- A settled answer is the answer for all bytes.
    stops_here :
        state.cursor ≤ length buf
        → p.status ≢ incomplete
        → Agrees fed (entry.call state (buf ++ joined (ys ∷ pieces)) out consumed)
    stops_here inside stop = elim (too_long_dec p.status) [
      | inl long ↦
          let (q, e) = entry.returns state (buf ++ joined (ys ∷ pieces)) out consumed in
          record { p = p; q = q; fed_is = feed_stop stop; whole_is = e; same = inl long }
      | inr short ↦ record {
        p = p;
        q = p;
        fed_is = feed_stop stop;
        whole_is =
            entry.append state buf (joined (ys ∷ pieces)) out consumed p inside call stop short;
        same = inr (equal refl);
      }
    ]

    -- An answer that more pieces follow.
    goes_on :
        state.cursor ≤ length buf
        → p.status ≡ incomplete
        → Agrees
            (feed entry.call pieces p.state (buf ++ ys) p.out p.bytes_consumed)
            (entry.call p.state ((buf ++ ys) ++ joined pieces) p.out p.bytes_consumed)
        → Agrees fed (entry.call state (buf ++ joined (ys ∷ pieces)) out consumed)
    goes_on inside more rest =
        let (second, whole, second_is, whole_is, same) =
          entry.resume state buf (joined (ys ∷ pieces)) out consumed p.bytes_consumed consumed p
            inside call more in
        let same_second : rest.q ≡ second = some-≡ (
          sym rest.whole_is
          ∙ ap (λ text. entry.call p.state text p.out p.bytes_consumed)
              (append_assoc buf ys (joined pieces))
          ∙ second_is) in
        record {
          p = rest.p;
          q = whole;
          fed_is = feed_more more ∙ rest.fed_is;
          whole_is = whole_is;
          same = elim rest.same [
            | inl long ↦ inl long
            | inr agree ↦ inr (SameResult-trans agree (SameResult-trans (equal same_second) same))
          ];
        }

  pub feed-Agrees :
      (pieces : List Bytes) (state : ParserState) (buf : Bytes) (out : A) (consumed : ℕ)
      → state.cursor ≤ length buf
      → Agrees
          (feed entry.call pieces state buf out consumed)
          (entry.call state (buf ++ joined pieces) out consumed)
  unfolding feed
  feed-Agrees [] state buf out consumed inside =
      let (p, e) = entry.returns state buf out consumed in
      record {
        p = p;
        q = p;
        fed_is = e;
        whole_is = ap (λ text. entry.call state text out consumed) (append-nil buf) ∙ e;
        same = inr (equal refl);
      }
  feed-Agrees (ys ∷ pieces) state buf out consumed inside =
      let (p, call) = entry.returns state buf out consumed in
      elim (incomplete_dec p.status) [
        | inl more ↦
            let reach = entry.reach state buf out consumed p inside call in
            goes_on ys pieces state buf out consumed p call inside more (
              feed-Agrees pieces p.state (buf ++ ys) p.out p.bytes_consumed
                (omega (arith, length-append buf ys)))
        | inr stop ↦ stops_here ys pieces state buf out consumed p call inside stop
      ]
