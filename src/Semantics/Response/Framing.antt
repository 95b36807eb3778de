-- ===== src/Semantics/Response/Framing.antt =====
-- What the headers say of the body when `ihtp_response_apply_semantics` of src/ihtp_semantics.c
-- accepts a response.
use iohttpparser.Base.{
  ℕ, ◌/◌, ◌||◌, ◌==◌, ◌≡◌, refl, ap, sym, subst, ◌∙◌, arith, Bool, true, false, ◌&&◌, Option, List,
  [], ◌∷◌, Bytes, codes, if◌then◌else◌, take, Bool-cases, Option-cases, inl, inr,
}
use iohttpparser.Parser.Stateful.{resolve_policy}
use iohttpparser.Semantics.Headers.Flags.{
  any_named, Sets, Sets-same, Sets-trans, Gives, gives, if-Gives, other_name,
  seen_transfer_encoding-Sets, seen_connection-Sets, seen_upgrade-Sets, seen_trailer-Sets,
  seen_content_length-Sets,
}
use iohttpparser.Semantics.Headers.{Seen, nothing_seen, header_name_eq, value_of}
use iohttpparser.Semantics.Response.{
  response_header, scan_response, response_conflict, has_no_body, response_body_mode,
  finish_response, decide_response, response_apply_semantics,
}
use iohttpparser.Types.{
  ok, error, Header, body_none, body_fixed, body_chunked, body_eof, Response, Policy,
}
use iohttpparser.Semantics.Fields.{parse_transfer_encoding}
use iohttpparser.Semantics.Headers.Chunked.{
  ends_in_chunked, last_coding_chunked, Leaves, leaves, if-Leaves, seen_transfer_encoding-Leaves,
  seen_connection-Leaves, seen_upgrade-Leaves, seen_trailer-Leaves, seen_content_length-Leaves,
}

module _ (is_token : Bytes → Bool) (input : Bytes) where
  named : Header → Bytes → Bool
  named h name = header_name_eq input h name

  response_header-Sets :
      (s : Seen) (h : Header)
      → Gives
          (named h (codes "transfer-encoding"))
          (named h (codes "content-length"))
          false
          s
          (response_header is_token input s h)
  unfolding response_header named
  response_header-Sets s h =
      let value = value_of input h in
      elim (Bool-cases (header_name_eq input h (codes "transfer-encoding"))) [
        | inl te ↦
            rw
              (
                te,
                other_name input h (codes "transfer-encoding") (codes "content-length") te
                    (omega arith),
                response_header,
              )
              (seen_transfer_encoding-Sets is_token s value)
        | inr no_te ↦ elim (Bool-cases (header_name_eq input h (codes "content-length"))) [
          | inl cl ↦ rw (no_te, cl, response_header) (seen_content_length-Sets is_token s value)
          | inr no_cl ↦
              rw (no_te, no_cl, response_header)
                (if-Gives (header_name_eq input h (codes "connection"))
                  (seen_connection-Sets is_token s value)
                  (if-Gives (header_name_eq input h (codes "upgrade"))
                    (seen_upgrade-Sets is_token s value)
                    (if-Gives (header_name_eq input h (codes "trailer"))
                      (seen_trailer-Sets is_token s value) (gives (Sets-same refl refl refl)))))
        ]
      ]

  -- The flags behind the loop tell which headers there are.
  scan_response-Sets :
      (s : Seen) (hs : List Header)
      → (scan_response is_token input s hs).failed ≡ false
      → Sets
          (any_named input (codes "transfer-encoding") hs)
          (any_named input (codes "content-length") hs)
          false
          s
          (scan_response is_token input s hs).seen
  unfolding scan_response named
  scan_response-Sets s [] done = Sets-same refl refl refl
  scan_response-Sets s (h ∷ hs) done = elim (Option-cases (response_header is_token input s h)) [
    | inl e ↦
        let stopped : (scan_response is_token input s (h ∷ hs)).failed ≡ true =
          rw (e, scan_response) refl in
        absurd (cc)
    | inr (t, e) ↦
        let first =
          (subst
            (λ o.
              Gives (named h (codes "transfer-encoding")) (named h (codes "content-length")) false s
                o)
            e (response_header-Sets s h)).given in
        let same : scan_response is_token input s (h ∷ hs) ≡ scan_response is_token input t hs =
          rw (e, scan_response) refl in
        let rest = scan_response-Sets t hs (sym (ap (λ r. r.failed) same) ∙ done) in
        rw same (Sets-trans first rest)
  ]

  response_header-Leaves :
      (s : Seen) (h : Header)
      → Leaves
          (if named h (codes "transfer-encoding")
            then ends_in_chunked (parse_transfer_encoding is_token (value_of input h))
            else s.chunked)
          (response_header is_token input s h)
  unfolding response_header named
  response_header-Leaves s h =
      let value = value_of input h in
      elim (Bool-cases (header_name_eq input h (codes "transfer-encoding"))) [
        | inl te ↦ rw (te, response_header) (seen_transfer_encoding-Leaves is_token s value)
        | inr no_te ↦
            rw (no_te, response_header)
              (if-Leaves (header_name_eq input h (codes "content-length"))
                (seen_content_length-Leaves is_token s value)
                (if-Leaves (header_name_eq input h (codes "connection"))
                  (seen_connection-Leaves is_token s value)
                  (if-Leaves (header_name_eq input h (codes "upgrade"))
                    (seen_upgrade-Leaves is_token s value)
                    (if-Leaves (header_name_eq input h (codes "trailer"))
                      (seen_trailer-Leaves is_token s value) (leaves refl)))))
      ]

  -- `chunked` behind the loop is what the last Transfer-Encoding header says.
  scan_response-chunked :
      (s : Seen) (hs : List Header)
      → (scan_response is_token input s hs).failed ≡ false
      → (scan_response is_token input s hs).seen.chunked
        ≡ last_coding_chunked is_token input s.chunked hs
  unfolding scan_response named
  scan_response-chunked s [] done = refl
  scan_response-chunked s (h ∷ hs) done = elim (Option-cases (response_header is_token input s h)) [
    | inl e ↦
        let stopped : (scan_response is_token input s (h ∷ hs)).failed ≡ true =
          rw (e, scan_response) refl in
        absurd (cc)
    | inr (t, e) ↦
        let first =
          (subst
            (Leaves (
              if header_name_eq input h (codes "transfer-encoding")
              then ends_in_chunked (parse_transfer_encoding is_token (value_of input h))
              else s.chunked))
            e (response_header-Leaves s h)).given in
        let same : scan_response is_token input s (h ∷ hs) ≡ scan_response is_token input t hs =
          rw (e, scan_response) refl in
        let rest = scan_response-chunked t hs (sym (ap (λ r. r.failed) same) ∙ done) in
        ap (λ r. r.seen.chunked) same
        ∙ rest
        ∙ ap (λ b. last_coding_chunked is_token input b hs) first
  ]

-- The codes 1xx, 204 and 304, of RFC 9112 section 6.3.
abbrev pub forbids_body : ℕ → Bool
forbids_body code = code / 100 == 1 || (code == 204 || code == 304)

forbids_body_lem : (code : ℕ) → has_no_body code ≡ forbids_body code
unfolding has_no_body
forbids_body_lem code = ground arith

-- What `finish_response` lets pass, by the variables.
finish_response_ok :
    (s : Seen) (resp : Response) (policy : Policy) (resp' : Response)
    → finish_response s resp policy ≡ (ok, resp')
    → (resp'.body_mode ≡ (
        if has_no_body resp.status_code
        then body_none
        else if s.has_te && s.chunked
        then body_chunked
        else if s.has_cl
        then body_fixed
        else body_eof))
      × ((s.has_te && s.has_cl && policy.reject_te_cl) ≡ false)
unfolding finish_response response_conflict decide_response response_body_mode
finish_response_ok s resp policy resp' e = ground arith

-- Whether a response has a header with the name.
abbrev pub response_has : Bytes → Response → Bytes → Bool
response_has input resp name = any_named input name (take resp.num_headers resp.headers)

-- The body mode that the code gives an accepted response: none for the codes 1xx, 204 and 304,
-- whatever the headers say; chunked where the last Transfer-Encoding header ends in chunked; else a
-- fixed length with a Content-Length header and up to the end of the connection without. Under a
-- policy with `reject_te_cl` an accepted response does not have both headers. Under a policy
-- without it, a response that has both, with a Transfer-Encoding that does not end in chunked, is
-- given the fixed length, where RFC 9112 section 6.3 has the end of the connection.
pub response_apply_semantics_framing :
    (is_token : Bytes → Bool) (input : Bytes) (resp : Response) (policy : Option Policy)
    (resp' : Response)
    → response_apply_semantics is_token input resp policy ≡ (ok, resp')
    → let te = response_has input resp (codes "transfer-encoding") in
      let cl = response_has input resp (codes "content-length") in
      let chunked = last_coding_chunked is_token input false (take resp.num_headers resp.headers) in
      (resp'.body_mode ≡ (
        if forbids_body resp.status_code
        then body_none
        else if te && chunked
        then body_chunked
        else if cl
        then body_fixed
        else body_eof))
      × ((te && cl && (resolve_policy policy).reject_te_cl) ≡ false)
unfolding response_apply_semantics
response_apply_semantics_framing is_token input resp policy resp' e =
    let hs = take resp.num_headers resp.headers in
    let start = nothing_seen false in
    let scanned = scan_response is_token input start hs in
    elim (Bool-cases scanned.failed) [
      | inl bad ↦
          let out : response_apply_semantics is_token input resp policy ≡ (error, resp) =
            rw bad refl in
          absurd (cc)
      | inr good ↦
          let sets = scan_response-Sets is_token input start hs good in
          let chunked = scan_response-chunked is_token input start hs good in
          let out : response_apply_semantics is_token input resp policy
              ≡ finish_response scanned.seen resp (resolve_policy policy) =
            rw good refl in
          let passed =
            finish_response_ok scanned.seen resp (resolve_policy policy) resp' (sym out ∙ e) in
          rw
            (
              sym (forbids_body_lem resp.status_code),
              sym sets.sets_te,
              sym sets.sets_cl,
              sym chunked,
            )
            passed
    ]
