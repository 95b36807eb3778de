-- ===== src/Semantics/Headers.antt =====
-- The branches on one header that `ihtp_request_apply_semantics` and
-- `ihtp_response_apply_semantics` of src/ihtp_semantics.c have in common.
-- `input` is the buffer into which the header's offsets point.
pub mod Flags
pub mod Chunked
use iohttpparser.Base.{
  ℕ, ◌+◌, Bool, true, false, not, ◌&&◌, Option, none, some, Bytes, codes, ◌==◌, if◌then◌else◌,
  length, take, drop,
}
use iohttpparser.Semantics.Fields.{
  ConnectionFlags, same_ignore_case, parse_content_length, parse_transfer_encoding,
  parse_connection_header, parse_trailer_header,
}
use iohttpparser.Types.{Header}

-- The bytes of a span of the input.
abbrev pub span : Bytes → ℕ → ℕ → Bytes
span input start len = take len (drop start input)

abbrev pub name_of : Bytes → Header → Bytes
name_of input h = span input h.name h.name_len

abbrev pub value_of : Bytes → Header → Bytes
value_of input h = span input h.value h.value_len

unfoldable pub header_name_eq : Bytes → Header → Bytes → Bool
unfolding same_ignore_case
header_name_eq input h name = h.name_len == length name && same_ignore_case (name_of input h) name

-- The local variables of the two functions; `expects_continue` is the field of the request.
pub record Seen : Type 0 where
  pub has_te : Bool
  pub has_cl : Bool
  pub chunked : Bool
  pub has_host : Bool
  pub has_upgrade : Bool
  pub has_expect : Bool
  pub has_trailer : Bool
  pub connection : ConnectionFlags
  pub chunked_count : ℕ
  pub content_length : ℕ
  pub expects_continue : Bool

abbrev pub nothing_seen : Bool → Seen
nothing_seen expects_continue = record {
  has_te = false;
  has_cl = false;
  chunked = false;
  has_host = false;
  has_upgrade = false;
  has_expect = false;
  has_trailer = false;
  connection = record { close = false; keep_alive = false; upgrade = false };
  chunked_count = 0;
  content_length = 0;
  expects_continue = expects_continue;
}

module _ (is_token : Bytes → Bool) where
  unfoldable pub seen_transfer_encoding : Seen → Bytes → Option Seen
  seen_transfer_encoding s value = elim (parse_transfer_encoding is_token value) [
    | none ↦ none
    | some (header_chunked, header_count) ↦ some (record s {
      has_te = true;
      chunked = header_chunked;
      chunked_count = s.chunked_count + header_count;
    })
  ]

  unfoldable pub seen_connection : Seen → Bytes → Option Seen
  seen_connection s value = elim (parse_connection_header is_token value s.connection) [
    | none ↦ none
    | some f ↦ some (record s { connection = f })
  ]

  unfoldable pub seen_upgrade : Seen → Bytes → Option Seen
  seen_upgrade s value = if is_token value then some (record s { has_upgrade = true }) else none

  unfoldable pub seen_trailer : Seen → Bytes → Option Seen
  seen_trailer s value =
      if parse_trailer_header is_token value then some (record s { has_trailer = true }) else none

unfoldable pub seen_content_length : Seen → Bytes → Option Seen
seen_content_length s value = elim (parse_content_length value) [
  | none ↦ none
  | some parsed ↦
      if s.has_cl && not (parsed == s.content_length)
      then none
      else some (record s { has_cl = true; content_length = parsed })
]

-- What the loop leaves: the variables, and whether it returned `IHTP_ERROR`.
pub record Scanned : Type 0 where
  pub seen : Seen
  pub failed : Bool
