-- ===== src/Semantics/Request/Framing.antt =====
-- What the headers say of the body when `ihtp_request_apply_semantics` of src/ihtp_semantics.c
-- accepts a request.
use iohttpparser.Base.{
  ◌≡◌, refl, ap, sym, subst, ◌∙◌, arith, Bool, true, false, not, ◌&&◌, ◌||◌, Option, List, [], ◌∷◌,
  Bytes, codes, ◌==◌, if◌then◌else◌, take, Bool-cases, Option-cases, inl, inr,
}
use iohttpparser.Parser.Stateful.{resolve_policy}
use iohttpparser.Semantics.Headers.Flags.{
  any_named, Sets, Sets-same, Sets-trans, Sets-host, Gives, fails, gives, if-Gives, other_name,
  seen_transfer_encoding-Sets, seen_connection-Sets, seen_upgrade-Sets, seen_trailer-Sets,
  seen_content_length-Sets,
}
use iohttpparser.Semantics.Headers.{Seen, nothing_seen, header_name_eq, value_of}
use iohttpparser.Semantics.Fields.{parse_expect_header}
use iohttpparser.Semantics.Request.{
  seen_host, seen_expect, request_header, scan_request, request_conflict, request_body_mode,
  finish_request, decide_request, request_apply_semantics, is_http_11,
}
use iohttpparser.Types.{ok, error, Header, body_none, body_fixed, body_chunked, Request, Policy}

seen_host-Sets : (s : Seen) (h : Header) → Gives false false true s (seen_host s h)
unfolding seen_host
seen_host-Sets s h =
    if-Gives (s.has_host || h.value_len == 0) fails (gives (Sets-host refl refl refl))

seen_expect-Sets : (s : Seen) (value : Bytes) → Gives false false false s (seen_expect s value)
unfolding seen_expect
seen_expect-Sets s value = elim (Option-cases (parse_expect_header value)) [
  | inl e ↦ rw (e, seen_expect) fails
  | inr (expects, e) ↦ rw (e, seen_expect) (gives (Sets-same refl refl refl))
]

module _ (is_token : Bytes → Bool) (input : Bytes) where
  named : Header → Bytes → Bool
  named h name = header_name_eq input h name

  request_header-Sets :
      (s : Seen) (h : Header)
      → Gives
          (named h (codes "transfer-encoding"))
          (named h (codes "content-length"))
          (named h (codes "host"))
          s
          (request_header is_token input s h)
  unfolding request_header named
  request_header-Sets s h =
      let value = value_of input h in
      let other = other_name input h in
      elim (Bool-cases (header_name_eq input h (codes "transfer-encoding"))) [
        | inl te ↦
            rw
              (
                te,
                other (codes "transfer-encoding") (codes "content-length") te (omega arith),
                other (codes "transfer-encoding") (codes "host") te (omega arith),
                request_header,
              )
              (seen_transfer_encoding-Sets is_token s value)
        | inr no_te ↦ elim (Bool-cases (header_name_eq input h (codes "content-length"))) [
          | inl cl ↦
              rw
                (
                  no_te,
                  cl,
                  other (codes "content-length") (codes "host") cl (omega arith),
                  request_header,
                )
                (seen_content_length-Sets is_token s value)
          | inr no_cl ↦ elim (Bool-cases (header_name_eq input h (codes "host"))) [
            | inl host ↦
                rw
                  (
                    no_te,
                    no_cl,
                    host,
                    other (codes "host") (codes "connection") host (omega arith),
                    other (codes "host") (codes "upgrade") host (omega arith),
                    request_header,
                  )
                  (seen_host-Sets s h)
            | inr no_host ↦
                rw (no_te, no_cl, no_host, request_header)
                  (if-Gives (header_name_eq input h (codes "connection"))
                    (seen_connection-Sets is_token s value)
                    (if-Gives (header_name_eq input h (codes "upgrade"))
                      (seen_upgrade-Sets is_token s value)
                      (if-Gives (header_name_eq input h (codes "expect")) (seen_expect-Sets s value)
                        (if-Gives (header_name_eq input h (codes "trailer"))
                          (seen_trailer-Sets is_token s value)
                          (gives (Sets-same refl refl refl))))))
          ]
        ]
      ]

  -- The flags behind the loop tell which headers there are.
  scan_request-Sets :
      (s : Seen) (hs : List Header)
      → (scan_request is_token input s hs).failed ≡ false
      → Sets
          (any_named input (codes "transfer-encoding") hs)
          (any_named input (codes "content-length") hs)
          (any_named input (codes "host") hs)
          s
          (scan_request is_token input s hs).seen
  unfolding scan_request named
  scan_request-Sets s [] done = Sets-same refl refl refl
  scan_request-Sets s (h ∷ hs) done = elim (Option-cases (request_header is_token input s h)) [
    | inl e ↦
        let stopped : (scan_request is_token input s (h ∷ hs)).failed ≡ true =
          rw (e, scan_request) refl in
        absurd (cc)
    | inr (t, e) ↦
        let first =
          (subst
            (λ o.
              Gives (named h (codes "transfer-encoding")) (named h (codes "content-length"))
                (named h (codes "host")) s o)
            e (request_header-Sets s h)).given in
        let same : scan_request is_token input s (h ∷ hs) ≡ scan_request is_token input t hs =
          rw (e, scan_request) refl in
        let rest = scan_request-Sets t hs (sym (ap (λ r. r.failed) same) ∙ done) in
        rw same (Sets-trans first rest)
  ]

-- What `finish_request` lets pass, by the flags.
finish_request_ok :
    (s : Seen) (req : Request) (policy : Policy) (req' : Request)
    → finish_request s req policy ≡ (ok, req')
    → (req'.body_mode
        ≡ (if s.has_te then body_chunked else if s.has_cl then body_fixed else body_none))
      × ((s.has_te && s.has_cl && policy.reject_te_cl) ≡ false)
      × ((is_http_11 req.version && not s.has_host) ≡ false)
unfolding finish_request request_conflict decide_request request_body_mode
finish_request_ok s req policy req' e = ground (arith)

-- Whether a request has a header with the name.
abbrev pub has_header : Bytes → Request → Bytes → Bool
has_header input req name = any_named input name (take req.num_headers req.headers)

-- A request is accepted with one framing only, the one RFC 9112 section 6.3 gives: with a
-- Transfer-Encoding header the body is chunked, else with a Content-Length header it has a fixed
-- length, else there is none. It does not have both headers under a policy with `reject_te_cl`,
-- and an HTTP/1.1 request has a Host header. This holds for every token test and every buffer.
pub request_apply_semantics_framing :
    (is_token : Bytes → Bool) (input : Bytes) (req : Request) (policy : Option Policy)
    (req' : Request)
    → request_apply_semantics is_token input req policy ≡ (ok, req')
    → let te = has_header input req (codes "transfer-encoding") in
      let cl = has_header input req (codes "content-length") in
      (req'.body_mode ≡ (if te then body_chunked else if cl then body_fixed else body_none))
      × ((te && cl && (resolve_policy policy).reject_te_cl) ≡ false)
      × ((is_http_11 req.version && not (has_header input req (codes "host"))) ≡ false)
unfolding request_apply_semantics
request_apply_semantics_framing is_token input req policy req' e =
    let hs = take req.num_headers req.headers in
    let start = nothing_seen req.expects_continue in
    let scanned = scan_request is_token input start hs in
    let r = record req { expects_continue = scanned.seen.expects_continue } in
    elim (Bool-cases scanned.failed) [
      | inl bad ↦
          let out : request_apply_semantics is_token input req policy ≡ (error, r) = rw bad refl in
          absurd (cc)
      | inr good ↦
          let sets = scan_request-Sets is_token input start hs good in
          let out : request_apply_semantics is_token input req policy
              ≡ finish_request scanned.seen r (resolve_policy policy) =
            rw good refl in
          let passed =
            finish_request_ok scanned.seen r (resolve_policy policy) req' (sym out ∙ e) in
          rw (sym sets.sets_te, sym sets.sets_cl, sym sets.sets_host) passed
    ]
