-- ===== src/Semantics/Request/Local.antt =====
-- `ihtp_request_apply_semantics` of src/ihtp_semantics.c reads the names and the values of the
-- headers only.
use iohttpparser.Base.{
  ℕ, ◌+◌, ◌≤◌, ◌≡◌, refl, ap, ◌∙◌, arith, Bool, List, [], ◌∷◌, ◌++◌, Option, Bytes, length, take,
  drop, drop-append_left, take-append_left, length-drop, Option-cases, inl, inr,
}
use iohttpparser.Parser.Spans.{Inside, AllInside}
use iohttpparser.Semantics.Headers.{Seen, span, name_of, value_of, header_name_eq, nothing_seen}
use iohttpparser.Semantics.Request.{request_header, scan_request, request_apply_semantics}
use iohttpparser.Types.{Header, Request, Policy}

-- A span of the first part.
pub span-append :
    (xs ys : Bytes) (start len : ℕ)
    → start + len ≤ length xs
    → span (xs ++ ys) start len ≡ span xs start len
span-append xs ys start len within =
    ap (take len) (drop-append_left xs ys start (omega arith))
    ∙ take-append_left (drop start xs) ys len (omega (arith, length-drop start xs))

module _ (is_token : Bytes → Bool) (xs ys : Bytes) where
  header_name_eq-append :
      (h : Header) (name : Bytes)
      → Inside (length xs) h
      → header_name_eq (xs ++ ys) h name ≡ header_name_eq xs h name
  unfolding header_name_eq
  header_name_eq-append h name i =
      let e : name_of (xs ++ ys) h ≡ name_of xs h =
        span-append xs ys h.name h.name_len (omega (arith, i.name_end, i.value_end)) in
      rw (header_name_eq, e) refl

  request_header-append :
      (s : Seen) (h : Header)
      → Inside (length xs) h
      → request_header is_token (xs ++ ys) s h ≡ request_header is_token xs s h
  unfolding request_header
  request_header-append s h i =
      let value : value_of (xs ++ ys) h ≡ value_of xs h =
        span-append xs ys h.value h.value_len i.value_end in
      let name = λ (n : Bytes). header_name_eq-append h n i in
      rw (request_header, value) (simp name refl)

  scan_request-append :
      (s : Seen) (hs : List Header)
      → AllInside (length xs) hs
      → scan_request is_token (xs ++ ys) s hs ≡ scan_request is_token xs s hs
  unfolding scan_request
  scan_request-append s [] all = refl
  scan_request-append s (h ∷ hs) all = elim (Option-cases (request_header is_token xs s h)) [
    | inl failing ↦ rw (scan_request, request_header-append s h all.0, failing) refl
    | inr (s', e) ↦
        rw (scan_request, request_header-append s h all.0, e) (scan_request-append s' hs all.1)
  ]

-- The semantics of a request do not depend on what is behind the bytes that its headers point to.
pub request_apply_semantics-append :
    (is_token : Bytes → Bool) (xs ys : Bytes) (req : Request) (policy : Option Policy)
    → AllInside (length xs) (take req.num_headers req.headers)
    → request_apply_semantics is_token (xs ++ ys) req policy
      ≡ request_apply_semantics is_token xs req policy
unfolding request_apply_semantics
request_apply_semantics-append is_token xs ys req policy all =
    rw
      (
        request_apply_semantics,
        scan_request-append is_token xs ys (nothing_seen req.expects_continue)
            (take req.num_headers req.headers) all,
      )
      refl
