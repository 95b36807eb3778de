-- ===== src/Parser/StartLine/Bounds.antt =====
-- The spans that `parse_request_line` of src/ihtp_parser.c stores.
use iohttpparser.Base.{
  ℕ, ◌+◌, ◌≤◌, ◌<◌, ◌≡◌, refl, arith, Bool, true, false, not, ◌||◌, Bytes, ltb, ◌==◌, if◌then◌else◌,
  length, get_or, take, drop, memchr, length-take, length-drop, Bool-cases, Option-cases, inl, inr,
}
use iohttpparser.Parser.Line.Bounds.{find_method_space_bounds, find_last_char_offset_bounds}
use iohttpparser.Parser.Line.Ends.{Fits, find_line_end-Fits, find_line_end-none}
use iohttpparser.Parser.Line.{
  LineEnd, line, no_line, find_line_end, find_method_space, find_last_char_offset,
}
use iohttpparser.Parser.StartLine.{
  RequestLine, failed_request, has_http_prefix, request_version, request_target, request_line_text,
  parse_request_line,
}
use iohttpparser.Parser.Text.{request_target_is_valid}
use iohttpparser.Types.{
  ok, incomplete, error, error_too_long, HttpVersion, Request, Policy, max_request_line,
}

-- The method and the request-target of a request: two spans that are not empty, with a byte
-- between them, before `limit`.
pub record StartLineInside (limit : ℕ) (req : Request) : Type 0 where
  pub method_pos : 0 < req.method_len
  pub method_end : req.method_str + req.method_len < req.path
  pub path_pos : 0 < req.path_len
  pub path_end : req.path + req.path_len < limit

-- What `parse_request_line` tells of a line of the `n` bytes at `base`, when it got `req`.
pub data LineTold (base n : ℕ) (req : Request) (r : RequestLine) : Type 0 where
  accepted :
      r.status ≡ ok
      → r.line_end ≤ n
      → r.req.method_str ≡ base
      → StartLineInside (base + r.line_end) r.req
      → r.req.headers ≡ req.headers
      → r.req.num_headers ≡ req.num_headers
      → LineTold base n req r
  waits : r ≡ failed_request req incomplete → LineTold base n req r
  rejected : r.status ≡ error → LineTold base n req r
  rejected_long : r.status ≡ error_too_long → LineTold base n req r

if_told :
    {base n : ℕ} {req : Request} {r s : RequestLine} (test : Bool)
    → LineTold base n req r
    → LineTold base n req s
    → LineTold base n req (if test then r else s)
if_told true p q = p
if_told false p q = q

module _ (base n line_end : ℕ) (req : Request) (fits : line_end ≤ n) where
  request_version_told :
      (ver : Bytes) (req' : Request)
      → req'.method_str ≡ base
      → StartLineInside (base + line_end) req'
      → req'.headers ≡ req.headers
      → req'.num_headers ≡ req.num_headers
      → LineTold base n req (request_version ver req' line_end)
  unfolding request_version
  request_version_told ver req' start i headers count =
      let inside : (v : HttpVersion)
          → StartLineInside (base + line_end) (record req' { version = v }) =
        λ v. record {
          method_pos = i.method_pos;
          method_end = i.method_end;
          path_pos = i.path_pos;
          path_end = i.path_end;
        } in
      if_told (not (length ver == 8) || not (has_http_prefix ver)) (rejected refl) (
        if_told (get_or ver 7 0 == b'1') (accepted refl fits start (inside _) headers count) (
          if_told (get_or ver 7 0 == b'0') (accepted refl fits start (inside _) headers count)
            (rejected refl)))

  request_target_told :
      (at : ℕ) (path_start : Bytes) (req' : Request) (policy : Policy)
      → req'.method_str ≡ base
      → 0 < req'.method_len
      → req'.method_str + req'.method_len < at
      → at + length path_start ≤ base + line_end
      → req'.headers ≡ req.headers
      → req'.num_headers ≡ req.num_headers
      → LineTold base n req (request_target at path_start req' policy line_end)
  unfolding request_target
  request_target_told at path_start req' policy start pos behind within headers count =
      elim (Option-cases (find_last_char_offset path_start b' ')) [
        | inl missing ↦ rw (missing, request_target) (rejected refl)
        | inr (sp2, found) ↦
            let before = find_last_char_offset_bounds path_start b' ' found in
            rw (found, request_target)
              (elim (Bool-cases (sp2 == 0)) [
                | inl empty ↦ rw empty (rejected refl)
                | inr target ↦ rw target (
                    if_told
                      (request_target_is_valid (take sp2 path_start) policy.allow_spaces_in_uri)
                      (request_version_told _ _ start
                        (record {
                          method_pos = pos;
                          method_end = behind;
                          path_pos = ground arith;
                          path_end = omega arith;
                        })
                        headers count)
                      (rejected refl))
              ])
      ]

  request_line_text_told :
      (text : Bytes) (policy : Policy)
      → length text ≤ line_end
      → LineTold base n req (request_line_text base text req policy line_end)
  unfolding request_line_text
  request_line_text_told text policy size = elim (Option-cases (find_method_space text)) [
    | inl missing ↦ rw (missing, request_line_text) (rejected refl)
    | inr (sp1, found) ↦
        let bounds = find_method_space_bounds text found in
        rw (found, request_line_text)
          (request_target_told (base + sp1 + 1) (drop (sp1 + 1) text) _ policy refl bounds.0
            (omega arith) (omega (arith, bounds, length-drop (sp1 + 1) text)) refl refl)
  ]

pub parse_request_line_told :
    (base : ℕ) (buf : Bytes) (req : Request) (policy : Policy)
    → LineTold base (length buf) req (parse_request_line base buf req policy)
unfolding parse_request_line
parse_request_line_told base buf req policy = elim (Option-cases (memchr b'\n' buf)) [
  | inl missing ↦
      rw (find_line_end-none buf policy missing, parse_request_line)
        (elim (Bool-cases (ltb max_request_line (length buf))) [
          | inl long ↦ rw long (rejected_long refl)
          | inr short ↦ rw short (waits refl)
        ])
  | inr (lf, found) ↦ go (find_line_end buf policy) refl (find_line_end-Fits buf policy found)
]
  where
    go :
        (e : LineEnd)
        → find_line_end buf policy ≡ e
        → Fits (length buf) e
        → LineTold base (length buf) req (parse_request_line base buf req policy)
    go (no_line status) e fits = rw (e, parse_request_line, fits) (rejected refl)
    go (line n ending) e fits =
        rw (e, parse_request_line)
          (if_told (ltb max_request_line n) (rejected_long refl) (
            request_line_text_told base (length buf) (n + ending) req fits.1 (take n buf) policy
              (omega (arith, length-take n buf))))
