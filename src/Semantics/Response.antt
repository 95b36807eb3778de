-- ===== src/Semantics/Response.antt =====
-- `ihtp_response_apply_semantics` of src/ihtp_semantics.c.
pub mod Framing
use iohttpparser.Base.{
  ℕ, Bool, true, false, not, ◌&&◌, ◌||◌, Option, none, some, List, [], ◌∷◌, Bytes, codes, leb, ltb,
  ◌==◌, if◌then◌else◌, take,
}
use iohttpparser.Parser.Stateful.{resolve_policy}
use iohttpparser.Semantics.Headers.{
  Seen, Scanned, nothing_seen, header_name_eq, value_of, seen_transfer_encoding,
  seen_content_length, seen_connection, seen_upgrade, seen_trailer,
}
use iohttpparser.Semantics.Request.{is_http_11, is_body_chunked, connection_decides}
use iohttpparser.Types.{
  Status, ok, error, Header, BodyMode, body_none, body_fixed, body_chunked, body_eof, Response,
  Policy,
}

abbrev pub is_body_eof : BodyMode → Bool
is_body_eof body_eof = true
is_body_eof _ = false

module _ (is_token : Bytes → Bool) (input : Bytes) where
  pub response_header : Seen → Header → Option Seen
  response_header s h =
      let value = value_of input h in
      if header_name_eq input h (codes "transfer-encoding")
      then seen_transfer_encoding is_token s value
      else if header_name_eq input h (codes "content-length")
      then seen_content_length s value
      else if header_name_eq input h (codes "connection")
      then seen_connection is_token s value
      else if header_name_eq input h (codes "upgrade")
      then seen_upgrade is_token s value
      else if header_name_eq input h (codes "trailer")
      then seen_trailer is_token s value
      else some s

  pub scan_response : Seen → List Header → Scanned
  scan_response s [] = record { seen = s; failed = false }
  scan_response s (h ∷ hs) = elim (response_header s h) [
    | none ↦ record { seen = s; failed = true }
    | some s' ↦ scan_response s' hs
  ]

pub response_conflict : Seen → Policy → Bool
response_conflict s policy = s.has_te && s.has_cl && policy.reject_te_cl || ltb 1 s.chunked_count

-- 1xx, 204 and 304.
pub has_no_body : ℕ → Bool
has_no_body code = leb 100 code && ltb code 200 || code == 204 || code == 304

pub response_body_mode : Seen → ℕ → BodyMode
unfolding has_no_body
response_body_mode s code =
    if has_no_body code
    then body_none
    else if s.has_te && s.chunked
    then body_chunked
    else if s.has_cl
    then body_fixed
    else body_eof

abbrev pub is_body_fixed : BodyMode → Bool
is_body_fixed body_fixed = true
is_body_fixed _ = false

-- From the Connection header on.
pub decide_response : Seen → Response → Status × Response
unfolding response_body_mode
decide_response s resp =
    let mode = response_body_mode s resp.status_code in
    let framed = record resp {
      keep_alive = connection_decides s resp.keep_alive;
      body_mode = mode;
      content_length = if is_body_fixed mode then s.content_length else resp.content_length;
    } in
    let upgrade =
      resp.status_code == 101 && s.has_upgrade && s.connection.upgrade && not s.connection.close in
    let has_connection = s.connection.close || s.connection.keep_alive || upgrade in
    let decided = record framed {
      protocol_upgrade = upgrade;
      has_trailer_fields = s.has_trailer;
      keep_alive =
          if not has_connection && is_http_11 resp.version && not (is_body_eof mode)
          then true
          else if upgrade
          then false
          else framed.keep_alive;
    } in
    if s.has_trailer && not (is_body_chunked mode) then (error, framed) else (ok, decided)

pub finish_response : Seen → Response → Policy → Status × Response
unfolding response_conflict decide_response
finish_response s resp policy =
    if response_conflict s policy then (error, resp) else decide_response s resp

unfoldable pub response_apply_semantics :
    (Bytes → Bool) → Bytes → Response → Option Policy → Status × Response
unfolding scan_response response_header finish_response resolve_policy
response_apply_semantics is_token input resp policy =
    let scanned =
      scan_response is_token input (nothing_seen false) (take resp.num_headers resp.headers) in
    if scanned.failed
    then (error, resp)
    else finish_response scanned.seen resp (resolve_policy policy)
