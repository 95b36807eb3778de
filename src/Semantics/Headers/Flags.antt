-- ===== src/Semantics/Headers/Flags.antt =====
-- What the branches of src/ihtp_semantics.c on one header leave of the variables that frame the body.
use iohttpparser.Base.{
  ◌≡◌, ◌≢◌, refl, ap, ◌∙◌, arith, Bool, true, false, not, ◌&&◌, ◌||◌, Option, none, some, List, [],
  ◌∷◌, Bytes, ◌==◌, if◌then◌else◌, length, Option-cases, inl, inr,
}
use iohttpparser.Semantics.Fields.{
  parse_content_length, parse_transfer_encoding, parse_connection_header, parse_trailer_header,
}
use iohttpparser.Semantics.Headers.{
  Seen, header_name_eq, seen_transfer_encoding, seen_content_length, seen_connection, seen_upgrade,
  seen_trailer,
}
use iohttpparser.Types.{Header}

-- Whether one of the headers has the name.
abbrev pub any_named : Bytes → Bytes → List Header → Bool
any_named input name [] = false
any_named input name (h ∷ hs) = header_name_eq input h name || any_named input name hs

-- `t` is `s` but for the flags that a header with these names sets.
pub record Sets (te cl host : Bool) (s t : Seen) : Type 0 where
  pub sets_te : t.has_te ≡ s.has_te || te
  pub sets_cl : t.has_cl ≡ s.has_cl || cl
  pub sets_host : t.has_host ≡ s.has_host || host

or_false : (b : Bool) → b ≡ b || false
or_false true = refl
or_false false = refl

or_true : (b : Bool) → true ≡ b || true
or_true true = refl
or_true false = refl

pub Sets-same :
    {s t : Seen}
    → t.has_te ≡ s.has_te
    → t.has_cl ≡ s.has_cl
    → t.has_host ≡ s.has_host
    → Sets false false false s t
Sets-same {s = s} te cl host = record {
  sets_te = te ∙ or_false s.has_te;
  sets_cl = cl ∙ or_false s.has_cl;
  sets_host = host ∙ or_false s.has_host;
}

pub Sets-te :
    {s t : Seen}
    → t.has_te ≡ true
    → t.has_cl ≡ s.has_cl
    → t.has_host ≡ s.has_host
    → Sets true false false s t
Sets-te {s = s} te cl host = record {
  sets_te = te ∙ or_true s.has_te;
  sets_cl = cl ∙ or_false s.has_cl;
  sets_host = host ∙ or_false s.has_host;
}

pub Sets-cl :
    {s t : Seen}
    → t.has_te ≡ s.has_te
    → t.has_cl ≡ true
    → t.has_host ≡ s.has_host
    → Sets false true false s t
Sets-cl {s = s} te cl host = record {
  sets_te = te ∙ or_false s.has_te;
  sets_cl = cl ∙ or_true s.has_cl;
  sets_host = host ∙ or_false s.has_host;
}

pub Sets-host :
    {s t : Seen}
    → t.has_te ≡ s.has_te
    → t.has_cl ≡ s.has_cl
    → t.has_host ≡ true
    → Sets false false true s t
Sets-host {s = s} te cl host = record {
  sets_te = te ∙ or_false s.has_te;
  sets_cl = cl ∙ or_false s.has_cl;
  sets_host = host ∙ or_true s.has_host;
}

-- What a branch gives, if it gives something, has these flags set.
abbrev pub SetsIfSome : Bool → Bool → Bool → Seen → Option Seen → Type 0
SetsIfSome te cl host s none = Unit
SetsIfSome te cl host s (some t) = Sets te cl host s t

pub record Gives (te cl host : Bool) (s : Seen) (o : Option Seen) : Type 0 where
  pub given : SetsIfSome te cl host s o

pub fails : {te cl host : Bool} {s : Seen} → Gives te cl host s none
fails = record { given = tt }

pub gives : {te cl host : Bool} {s t : Seen} → Sets te cl host s t → Gives te cl host s (some t)
gives sets = record { given = sets }

pub if-Gives :
    {te cl host : Bool} {s : Seen} {a b : Option Seen} (test : Bool)
    → Gives te cl host s a
    → Gives te cl host s b
    → Gives te cl host s (if test then a else b)
if-Gives true p q = p
if-Gives false p q = q

module _ (is_token : Bytes → Bool) (s : Seen) (value : Bytes) where
  pub seen_transfer_encoding-Sets :
      Gives true false false s (seen_transfer_encoding is_token s value)
  unfolding seen_transfer_encoding
  seen_transfer_encoding-Sets = elim (Option-cases (parse_transfer_encoding is_token value)) [
    | inl e ↦ rw (e, seen_transfer_encoding) fails
    | inr (v, e) ↦ rw (e, seen_transfer_encoding) (gives (Sets-te refl refl refl))
  ]

  pub seen_connection-Sets : Gives false false false s (seen_connection is_token s value)
  unfolding seen_connection
  seen_connection-Sets = elim (Option-cases (parse_connection_header is_token value s.connection)) [
    | inl e ↦ rw (e, seen_connection) fails
    | inr (f, e) ↦ rw (e, seen_connection) (gives (Sets-same refl refl refl))
  ]

  pub seen_upgrade-Sets : Gives false false false s (seen_upgrade is_token s value)
  unfolding seen_upgrade
  seen_upgrade-Sets = if-Gives (is_token value) (gives (Sets-same refl refl refl)) fails

  pub seen_trailer-Sets : Gives false false false s (seen_trailer is_token s value)
  unfolding seen_trailer
  seen_trailer-Sets =
      if-Gives (parse_trailer_header is_token value) (gives (Sets-same refl refl refl)) fails

  pub seen_content_length-Sets : Gives false true false s (seen_content_length s value)
  unfolding seen_content_length
  seen_content_length-Sets = elim (Option-cases (parse_content_length value)) [
    | inl e ↦ rw (e, seen_content_length) fails
    | inr (parsed, e) ↦
        rw (e, seen_content_length)
          (if-Gives (s.has_cl && not (parsed == s.content_length)) fails
            (gives (Sets-cl refl refl refl)))
  ]

-- Names of different lengths exclude each other.
pub other_name :
    (input : Bytes) (h : Header) (name other : Bytes)
    → header_name_eq input h name ≡ true
    → length name ≢ length other
    → header_name_eq input h other ≡ false
unfolding header_name_eq
other_name input h name other same differ = ground arith

or_assoc : (a b c : Bool) → (a || b) || c ≡ a || (b || c)
or_assoc true b c = refl
or_assoc false b c = refl

pub Sets-trans :
    {te cl host te' cl' host' : Bool} {s t u : Seen}
    → Sets te cl host s t
    → Sets te' cl' host' t u
    → Sets (te || te') (cl || cl') (host || host') s u
Sets-trans {te} {cl} {host} {te'} {cl'} {host'} {s} p q = record {
  sets_te = q.sets_te ∙ ap (λ b. b || te') p.sets_te ∙ or_assoc s.has_te te te';
  sets_cl = q.sets_cl ∙ ap (λ b. b || cl') p.sets_cl ∙ or_assoc s.has_cl cl cl';
  sets_host = q.sets_host ∙ ap (λ b. b || host') p.sets_host ∙ or_assoc s.has_host host host';
}
