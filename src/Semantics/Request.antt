-- ===== src/Semantics/Request.antt =====
-- `ihtp_request_apply_semantics` of src/ihtp_semantics.c.
pub mod Framing
pub mod Local
use iohttpparser.Base.{
  ℕ, Bool, true, false, not, ◌&&◌, ◌||◌, Option, none, some, List, [], ◌∷◌, Bytes, codes, ltb, ◌==◌,
  if◌then◌else◌, length, take,
}
use iohttpparser.Parser.Stateful.{resolve_policy}
use iohttpparser.Semantics.Fields.{parse_expect_header}
use iohttpparser.Semantics.Headers.{
  Seen, Scanned, nothing_seen, header_name_eq, value_of, seen_transfer_encoding,
  seen_content_length, seen_connection, seen_upgrade, seen_trailer,
}
use iohttpparser.Types.{
  Status, ok, error, HttpVersion, http_10, http_11, Header, BodyMode, body_none, body_fixed,
  body_chunked, body_eof, Request, Policy,
}

pub seen_host : Seen → Header → Option Seen
seen_host s h = if s.has_host || h.value_len == 0 then none else some (record s { has_host = true })

pub seen_expect : Seen → Bytes → Option Seen
seen_expect s value = elim (parse_expect_header value) [
  | none ↦ none
  | some expects ↦ some (record s { has_expect = true; expects_continue = expects })
]

abbrev pub is_http_11 : HttpVersion → Bool
is_http_11 http_10 = false
is_http_11 http_11 = true

abbrev pub is_body_chunked : BodyMode → Bool
is_body_chunked body_chunked = true
is_body_chunked _ = false

module _ (is_token : Bytes → Bool) (input : Bytes) where
  -- The branches on the name of a header.
  pub request_header : Seen → Header → Option Seen
  request_header s h =
      let value = value_of input h in
      if header_name_eq input h (codes "transfer-encoding")
      then seen_transfer_encoding is_token s value
      else if header_name_eq input h (codes "content-length")
      then seen_content_length s value
      else if header_name_eq input h (codes "connection")
      then seen_connection is_token s value
      else if header_name_eq input h (codes "upgrade")
      then seen_upgrade is_token s value
      else if header_name_eq input h (codes "host")
      then seen_host s h
      else if header_name_eq input h (codes "expect")
      then seen_expect s value
      else if header_name_eq input h (codes "trailer")
      then seen_trailer is_token s value
      else some s

  -- The loop over the headers.
  pub scan_request : Seen → List Header → Scanned
  scan_request s [] = record { seen = s; failed = false }
  scan_request s (h ∷ hs) = elim (request_header s h) [
    | none ↦ record { seen = s; failed = true }
    | some s' ↦ scan_request s' hs
  ]

-- The four tests behind the loop that return `IHTP_ERROR`.
pub request_conflict : Seen → HttpVersion → Policy → Bool
request_conflict s version policy =
    s.has_te && s.has_cl && policy.reject_te_cl
    || is_http_11 version && not s.has_host
    || ltb 1 s.chunked_count
    || s.has_te && not s.chunked

pub request_body_mode : Seen → BodyMode
request_body_mode s =
    if s.has_te && s.chunked then body_chunked else if s.has_cl then body_fixed else body_none

-- `keep_alive` as the Connection header decides it.
unfoldable pub connection_decides : Seen → Bool → Bool
connection_decides s keep_alive =
    if s.connection.close then false else if s.connection.keep_alive then true else keep_alive

-- From the Connection header on: `keep_alive`, the body mode, and the fields behind it.
pub decide_request : Seen → Request → Status × Request
unfolding request_body_mode connection_decides
decide_request s req =
    let mode = request_body_mode s in
    let has_connection = s.connection.close || s.connection.keep_alive in
    let framed = record req {
      keep_alive = connection_decides s req.keep_alive;
      body_mode = mode;
      content_length =
          if s.has_te && s.chunked
          then req.content_length
          else if s.has_cl
          then s.content_length
          else req.content_length;
    } in
    let decided = record framed {
      protocol_upgrade = s.has_upgrade && s.connection.upgrade;
      has_trailer_fields = s.has_trailer;
      expects_continue = if s.has_expect then req.expects_continue else false;
      keep_alive = if has_connection then framed.keep_alive else is_http_11 req.version;
    } in
    if s.has_trailer && not (is_body_chunked mode) then (error, framed) else (ok, decided)

-- Behind the loop.
pub finish_request : Seen → Request → Policy → Status × Request
unfolding request_conflict decide_request
finish_request s req policy =
    if request_conflict s req.version policy then (error, req) else decide_request s req

-- The status and the request afterwards; the loop writes `expects_continue`.
unfoldable pub request_apply_semantics :
    (Bytes → Bool) → Bytes → Request → Option Policy → Status × Request
unfolding scan_request request_header seen_host seen_expect finish_request resolve_policy
request_apply_semantics is_token input req policy =
    let scanned =
      scan_request is_token input (nothing_seen req.expects_continue)
        (take req.num_headers req.headers) in
    let req' = record req { expects_continue = scanned.seen.expects_continue } in
    if scanned.failed
    then (error, req')
    else finish_request scanned.seen req' (resolve_policy policy)
