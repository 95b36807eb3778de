-- ===== src/Parser/StartLine/AppendStatus.antt =====
-- `parse_status_line` of src/ihtp_parser.c when more bytes come in.
use iohttpparser.Base.{
  ℕ, ◌+◌, ◌-◌, ◌≤◌, ◌<◌, ◌≡◌, ◌≢◌, refl, ap, sym, ◌∙◌, arith, Bool, true, false, not, ◌&&◌, ◌||◌,
  none, some, [], ◌++◌, Bytes, ltb, ◌==◌, if◌then◌else◌, length, get_or, take, drop, memchr,
  take-append_left, drop-append_left, get_or-append_left, length-drop, Bool-cases, inl, inr,
}
use iohttpparser.Chars.{is_digit}
use iohttpparser.Parser.Line.Ends.{
  Fits, find_line_end-Fits, find_line_end-none, find_line_end-append,
}
use iohttpparser.Parser.Line.{LineEnd, line, no_line, find_line_end}
use iohttpparser.Parser.StartLine.{
  StatusLine, failed_response, has_http_prefix, status_code_of, status_line_code, status_line_text,
  parse_status_line,
}
use iohttpparser.Parser.Text.{field_text_is_valid}
use iohttpparser.Types.{incomplete, error, http_10, http_11, Response, Policy}

-- A return for good, behind the line at most.
pub record StatusDone (n : ℕ) (r : StatusLine) : Type 0 where
  pub final : r.status ≢ incomplete
  pub inside : r.line_end ≤ n

failed-StatusDone : (n : ℕ) (resp : Response) → StatusDone n (failed_response resp error)
failed-StatusDone n resp = record { final = cc; inside = omega arith }

if-StatusDone :
    {n : ℕ} {r s : StatusLine} (test : Bool)
    → StatusDone n r
    → StatusDone n s
    → StatusDone n (if test then r else s)
if-StatusDone true p q = p
if-StatusDone false p q = q

module _ (base : ℕ) (buf ys : Bytes) (line_len ending : ℕ)
    (fits : line_len + ending ≤ length buf) where
  status_line_code-Done :
      (resp : Response) → StatusDone (length buf) (status_line_code base buf resp line_len ending)
  unfolding status_line_code
  status_line_code-Done resp =
      let code = status_code_of buf in
      let reason = take (if ltb 13 line_len then line_len - 13 else 0) (drop 13 buf) in
      if-StatusDone
        (not (is_digit (get_or buf 9 0))
          || not (is_digit (get_or buf 10 0))
          || not (is_digit (get_or buf 11 0)))
        (failed-StatusDone _ _)
        (if-StatusDone (ltb code 100 || ltb 599 code) (failed-StatusDone _ _) (
          if-StatusDone (not (get_or buf 12 0 == b' ')) (failed-StatusDone _ _) (
            if-StatusDone (ltb 13 line_len && not (field_text_is_valid reason))
              (failed-StatusDone _ _) (record { final = λ e. absurd (cc); inside = fits }))))

  status_line_text-Done :
      (resp : Response) → StatusDone (length buf) (status_line_text base buf resp line_len ending)
  unfolding status_line_text
  status_line_text-Done resp =
      if-StatusDone (ltb line_len 13 || not (has_http_prefix buf)) (failed-StatusDone _ resp) (
        if-StatusDone (not (get_or buf 7 0 == b'1' || get_or buf 7 0 == b'0'))
          (failed-StatusDone _ resp)
          (if-StatusDone (not (get_or buf 8 0 == b' ')) (failed-StatusDone _ _)
            (status_line_code-Done _)))

  module _ (enough : 13 ≤ line_len) where
    byte_same : (i : ℕ) → i < 13 → get_or (buf ++ ys) i 0 ≡ get_or buf i 0
    byte_same i lt = get_or-append_left buf ys i 0 (omega arith)

    status_code_of-append : status_code_of (buf ++ ys) ≡ status_code_of buf
    unfolding status_code_of
    status_code_of-append =
        rw
          (
            status_code_of,
            byte_same 9 (omega arith),
            byte_same 10 (omega arith),
            byte_same 11 (omega arith),
          )
          refl

    reason_same : (n : ℕ) → n ≤ line_len - 13 → take n (drop 13 (buf ++ ys)) ≡ take n (drop 13 buf)
    reason_same n le =
        ap (take n) (drop-append_left buf ys 13 (omega arith))
        ∙ take-append_left (drop 13 buf) ys n (omega (arith, length-drop 13 buf))

    status_line_code-append :
        (resp : Response)
        → status_line_code base (buf ++ ys) resp line_len ending
          ≡ status_line_code base buf resp line_len ending
    unfolding status_line_code
    status_line_code-append resp =
        let reason = reason_same (if ltb 13 line_len then line_len - 13 else 0) (ground arith) in
        rw
          (
            status_line_code,
            status_code_of-append,
            byte_same 9 (omega arith),
            byte_same 10 (omega arith),
            byte_same 11 (omega arith),
            byte_same 12 (omega arith),
            reason,
          )
          refl

  status_line_text-append :
      (resp : Response)
      → status_line_text base (buf ++ ys) resp line_len ending
        ≡ status_line_text base buf resp line_len ending
  unfolding status_line_text
  status_line_text-append resp = elim (Bool-cases (ltb line_len 13)) [
    | inl short ↦ rw (status_line_text, short) refl
    | inr long ↦
        let enough : 13 ≤ line_len = ground arith in
        let prefix = take-append_left buf ys 7 (omega arith) in
        rw
          (
            status_line_text,
            prefix,
            byte_same enough 7 (omega arith),
            byte_same enough 8 (omega arith),
          )
          (ap
            (λ (r : StatusLine).
              let one = get_or buf 7 0 == b'1' in
              let resp' = record resp { version = if one then http_11 else http_10 } in
              if ltb line_len 13 || not (has_http_prefix buf)
              then failed_response resp error
              else if not (one || get_or buf 7 0 == b'0')
              then failed_response resp error
              else if not (get_or buf 8 0 == b' ')
              then failed_response resp' error
              else r)
            (status_line_code-append enough
              (record resp { version = if get_or buf 7 0 == b'1' then http_11 else http_10 })))
  ]

module _ (base : ℕ) (resp : Response) (policy : Policy) where
  abbrev line_read : Bytes → LineEnd → StatusLine
  line_read buf (no_line status) = failed_response resp status
  line_read buf (line line_len line_ending_len) =
      status_line_text base buf resp line_len line_ending_len

  parse_status_line_lem :
      (buf : Bytes) (l : LineEnd)
      → find_line_end buf policy ≡ l
      → parse_status_line base buf resp policy ≡ line_read buf l
  unfolding parse_status_line
  parse_status_line_lem buf (line n ending) e = rw (parse_status_line, e) refl
  parse_status_line_lem buf (no_line status) e = rw (parse_status_line, e) refl

  line_read-append :
      (xs ys : Bytes) (l : LineEnd) → Fits (length xs) l → line_read (xs ++ ys) l ≡ line_read xs l
  line_read-append xs ys (no_line status) fits = refl
  line_read-append xs ys (line n ending) fits =
      status_line_text-append base xs ys n ending fits.1 resp

  line_read-Done :
      (xs : Bytes) (l : LineEnd) → Fits (length xs) l → StatusDone (length xs) (line_read xs l)
  line_read-Done xs (no_line status) fits = rw fits (failed-StatusDone (length xs) resp)
  line_read-Done xs (line n ending) fits = status_line_text-Done base xs [] n ending fits.1 resp

  module _ (xs : Bytes) {lf : ℕ} (found : memchr b'\n' xs ≡ some lf) where
    pub parse_status_line-append :
        (ys : Bytes)
        → parse_status_line base (xs ++ ys) resp policy ≡ parse_status_line base xs resp policy
    parse_status_line-append ys =
        let l = find_line_end xs policy in
        parse_status_line_lem (xs ++ ys) l (find_line_end-append xs ys policy found)
        ∙ line_read-append xs ys l (find_line_end-Fits xs policy found)
        ∙ sym (parse_status_line_lem xs l refl)

    pub parse_status_line-Done : StatusDone (length xs) (parse_status_line base xs resp policy)
    parse_status_line-Done =
        rw (parse_status_line_lem xs (find_line_end xs policy) refl)
          (line_read-Done xs (find_line_end xs policy) (find_line_end-Fits xs policy found))

  pub parse_status_line-none :
      (xs : Bytes)
      → memchr b'\n' xs ≡ none
      → parse_status_line base xs resp policy ≡ failed_response resp incomplete
  parse_status_line-none xs missing =
      parse_status_line_lem xs (no_line incomplete) (find_line_end-none xs policy missing)
