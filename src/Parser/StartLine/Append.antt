-- ===== src/Parser/StartLine/Append.antt =====
-- `parse_request_line` of src/ihtp_parser.c when more bytes come in.
use iohttpparser.Base.{
  ℕ, ◌+◌, ◌≤◌, ◌≡◌, ◌≢◌, refl, sym, ◌∙◌, arith, Bool, true, false, not, ◌||◌, none, some, ◌++◌,
  Bytes, ltb, ◌==◌, if◌then◌else◌, length, get_or, take, memchr, take-append_left, Option-cases,
  inl, inr,
}
use iohttpparser.Parser.Line.Ends.{
  Fits, find_line_end-Fits, find_line_end-none, find_line_end-append,
}
use iohttpparser.Parser.Line.{
  LineEnd, line, no_line, find_line_end, find_method_space, find_last_char_offset,
}
use iohttpparser.Parser.StartLine.{
  RequestLine, failed_request, has_http_prefix, request_version, request_target, request_line_text,
  parse_request_line,
}
use iohttpparser.Parser.Text.{request_target_is_valid}
use iohttpparser.Types.{
  Status, ok, incomplete, error, error_too_long, error_too_many_headers, Request, Policy,
  max_request_line,
}

-- A return for good, behind the line at most.
pub record Done (n : ℕ) (r : RequestLine) : Type 0 where
  pub final : r.status ≢ incomplete
  pub inside : r.line_end ≤ n

failed-Done :
    (n : ℕ) (req : Request) (status : Status)
    → status ≢ incomplete
    → Done n (failed_request req status)
failed-Done n req status final = record { final = final; inside = omega arith }

if-Done :
    {n : ℕ} {r s : RequestLine} (test : Bool) → Done n r → Done n s → Done n (if test then r else s)
if-Done true p q = p
if-Done false p q = q

module _ (n line_end : ℕ) (inside : line_end ≤ n) where
  request_version-Done : (ver : Bytes) (req : Request) → Done n (request_version ver req line_end)
  unfolding request_version
  request_version-Done ver req =
      if-Done (not (length ver == 8) || not (has_http_prefix ver)) (failed-Done n _ _ (cc)) (
        if-Done (get_or ver 7 0 == b'1') (record { final = cc; inside = inside })
          (if-Done (get_or ver 7 0 == b'0') (record { final = cc; inside = inside })
            (failed-Done n _ _ (cc))))

  request_target-Done :
      (base : ℕ) (path_start : Bytes) (req : Request) (policy : Policy)
      → Done n (request_target base path_start req policy line_end)
  unfolding request_target
  request_target-Done base path_start req policy =
      elim (Option-cases (find_last_char_offset path_start b' ')) [
        | inl missing ↦ rw (missing, request_target) (failed-Done n _ _ (cc))
        | inr (sp2, found) ↦
            rw (found, request_target)
              (if-Done (sp2 == 0) (failed-Done n _ _ (cc)) (
                if-Done (request_target_is_valid (take sp2 path_start) policy.allow_spaces_in_uri)
                  (request_version-Done _ _) (failed-Done n _ _ (cc))))
      ]

  request_line_text-Done :
      (base : ℕ) (text : Bytes) (req : Request) (policy : Policy)
      → Done n (request_line_text base text req policy line_end)
  unfolding request_line_text
  request_line_text-Done base text req policy = elim (Option-cases (find_method_space text)) [
    | inl missing ↦ rw (missing, request_line_text) (failed-Done n _ _ (cc))
    | inr (sp1, found) ↦ rw (found, request_line_text) (request_target-Done _ _ _ policy)
  ]

module _ (base : ℕ) (req : Request) (policy : Policy) where
  -- What `parse_request_line` makes of a line end.
  abbrev line_read : Bytes → LineEnd → RequestLine
  line_read buf (no_line incomplete) =
      failed_request req (if ltb max_request_line (length buf) then error_too_long else incomplete)
  line_read buf (no_line status) = failed_request req status
  line_read buf (line line_len line_ending_len) =
      if ltb max_request_line line_len
      then failed_request req error_too_long
      else request_line_text base (take line_len buf) req policy (line_len + line_ending_len)

  parse_request_line_lem :
      (buf : Bytes) (l : LineEnd)
      → find_line_end buf policy ≡ l
      → parse_request_line base buf req policy ≡ line_read buf l
  unfolding parse_request_line
  parse_request_line_lem buf (line n ending) e = rw (parse_request_line, e) refl
  parse_request_line_lem buf (no_line incomplete) e = rw (parse_request_line, e) refl
  parse_request_line_lem buf (no_line ok) e = rw (parse_request_line, e) refl
  parse_request_line_lem buf (no_line error) e = rw (parse_request_line, e) refl
  parse_request_line_lem buf (no_line error_too_long) e = rw (parse_request_line, e) refl
  parse_request_line_lem buf (no_line error_too_many_headers) e = rw (parse_request_line, e) refl

  line_read-append :
      (xs ys : Bytes) (l : LineEnd) → Fits (length xs) l → line_read (xs ++ ys) l ≡ line_read xs l
  line_read-append xs ys (no_line status) fits = rw fits refl
  line_read-append xs ys (line n ending) fits =
      rw (take-append_left xs ys n (omega (arith, fits.1))) refl

  line_read-Done :
      (xs : Bytes) (l : LineEnd) → Fits (length xs) l → Done (length xs) (line_read xs l)
  line_read-Done xs (no_line status) fits = rw fits (failed-Done (length xs) _ _ (cc))
  line_read-Done xs (line n ending) fits =
      if-Done (ltb max_request_line n) (failed-Done (length xs) _ _ (cc))
        (request_line_text-Done (length xs) (n + ending) fits.1 base (take n xs) req policy)

  module _ (xs : Bytes) {lf : ℕ} (found : memchr b'\n' xs ≡ some lf) where
    pub parse_request_line-append :
        (ys : Bytes)
        → parse_request_line base (xs ++ ys) req policy ≡ parse_request_line base xs req policy
    parse_request_line-append ys =
        let l = find_line_end xs policy in
        parse_request_line_lem (xs ++ ys) l (find_line_end-append xs ys policy found)
        ∙ line_read-append xs ys l (find_line_end-Fits xs policy found)
        ∙ sym (parse_request_line_lem xs l refl)

    pub parse_request_line-Done : Done (length xs) (parse_request_line base xs req policy)
    parse_request_line-Done =
        rw (parse_request_line_lem xs (find_line_end xs policy) refl)
          (line_read-Done xs (find_line_end xs policy) (find_line_end-Fits xs policy found))

  -- Without it nothing is written.
  pub parse_request_line-none :
      (xs : Bytes)
      → memchr b'\n' xs ≡ none
      → parse_request_line base xs req policy
        ≡ failed_request req
            (if ltb max_request_line (length xs) then error_too_long else incomplete)
  parse_request_line-none xs missing =
      parse_request_line_lem xs (no_line incomplete) (find_line_end-none xs policy missing)
