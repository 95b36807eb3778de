-- ===== src/Semantics/Headers/Chunked.antt =====
-- The variable `chunked` of src/ihtp_semantics.c: what the branches on one header leave of it.
use iohttpparser.Base.{
  ℕ, ◌≡◌, refl, Bool, true, false, not, ◌&&◌, Option, none, some, List, [], ◌∷◌, Bytes, codes, ◌==◌,
  if◌then◌else◌, Option-cases, inl, inr,
}
use iohttpparser.Semantics.Fields.{
  parse_content_length, parse_transfer_encoding, parse_connection_header, parse_trailer_header,
}
use iohttpparser.Semantics.Headers.{
  Seen, header_name_eq, value_of, seen_transfer_encoding, seen_content_length, seen_connection,
  seen_upgrade, seen_trailer,
}
use iohttpparser.Types.{Header}

-- Whether the codings of a parsed Transfer-Encoding value end in chunked.
abbrev pub ends_in_chunked : Option (Bool × ℕ) → Bool
ends_in_chunked none = false
ends_in_chunked (some (final, count)) = final

-- Whether the last header named Transfer-Encoding ends in chunked; `earlier` is the answer for the
-- headers before these.
abbrev pub last_coding_chunked : (Bytes → Bool) → Bytes → Bool → List Header → Bool
last_coding_chunked is_token input earlier [] = earlier
last_coding_chunked is_token input earlier (h ∷ hs) =
    last_coding_chunked is_token input
      (if header_name_eq input h (codes "transfer-encoding")
        then ends_in_chunked (parse_transfer_encoding is_token (value_of input h))
        else earlier)
      hs

abbrev pub ChunkedIfSome : Bool → Option Seen → Type 0
ChunkedIfSome b none = Unit
ChunkedIfSome b (some t) = t.chunked ≡ b

-- What a branch gives, if it gives something, has this value of `chunked`.
pub record Leaves (b : Bool) (o : Option Seen) : Type 0 where
  pub given : ChunkedIfSome b o

fails : {b : Bool} → Leaves b none
fails = record { given = tt }

pub leaves : {b : Bool} {t : Seen} → t.chunked ≡ b → Leaves b (some t)
leaves same = record { given = same }

pub if-Leaves :
    {b : Bool} {o o' : Option Seen} (test : Bool)
    → Leaves b o
    → Leaves b o'
    → Leaves b (if test then o else o')
if-Leaves true p q = p
if-Leaves false p q = q

module _ (is_token : Bytes → Bool) (s : Seen) (value : Bytes) where
  pub seen_transfer_encoding-Leaves :
      Leaves
        (ends_in_chunked (parse_transfer_encoding is_token value))
        (seen_transfer_encoding is_token s value)
  unfolding seen_transfer_encoding
  seen_transfer_encoding-Leaves = elim (Option-cases (parse_transfer_encoding is_token value)) [
    | inl e ↦ rw (e, seen_transfer_encoding) fails
    | inr (v, e) ↦ rw (e, seen_transfer_encoding) (leaves refl)
  ]

  pub seen_connection-Leaves : Leaves s.chunked (seen_connection is_token s value)
  unfolding seen_connection
  seen_connection-Leaves =
      elim (Option-cases (parse_connection_header is_token value s.connection)) [
        | inl e ↦ rw (e, seen_connection) fails
        | inr (f, e) ↦ rw (e, seen_connection) (leaves refl)
      ]

  pub seen_upgrade-Leaves : Leaves s.chunked (seen_upgrade is_token s value)
  unfolding seen_upgrade
  seen_upgrade-Leaves = if-Leaves (is_token value) (leaves refl) fails

  pub seen_trailer-Leaves : Leaves s.chunked (seen_trailer is_token s value)
  unfolding seen_trailer
  seen_trailer-Leaves = if-Leaves (parse_trailer_header is_token value) (leaves refl) fails

  pub seen_content_length-Leaves : Leaves s.chunked (seen_content_length s value)
  unfolding seen_content_length
  seen_content_length-Leaves = elim (Option-cases (parse_content_length value)) [
    | inl e ↦ rw (e, seen_content_length) fails
    | inr (parsed, e) ↦
        rw (e, seen_content_length)
          (if-Leaves (s.has_cl && not (parsed == s.content_length)) fails (leaves refl))
  ]
