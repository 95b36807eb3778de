-- ===== src/Parser/Line/Ends.antt =====
-- `find_line_end` of src/ihtp_parser.c when more bytes come in.
use iohttpparser.Base.{
  ℕ, ◌+◌, ◌-◌, ◌≤◌, ◌<◌, ◌≡◌, refl, ◌∙◌, sym, arith, ◌&&◌, none, some, ◌++◌, Bytes, ltb, ◌==◌,
  if◌then◌else◌, length, get_or, memchr, get_or-append_left, memchr-append_left, memchr-lt-length,
  Bool-cases, inl, inr,
}
use iohttpparser.Parser.Line.{LineEnd, line, no_line, find_line_end}
use iohttpparser.Types.{incomplete, error, Policy}

-- What `find_line_end` makes of the offset of the first LF.
abbrev pub line_end_at : Bytes → Policy → ℕ → LineEnd
line_end_at buf policy lf =
    if ltb 0 lf && get_or buf (lf - 1) 0 == b'\r'
    then line (lf - 1) 2
    else if policy.reject_bare_lf
    then no_line error
    else line lf 1

-- A line and its ending lie in the buffer.
abbrev pub Fits : ℕ → LineEnd → Type 0
Fits n (line line_len line_ending_len) =
    (0 < line_len + line_ending_len) × (line_len + line_ending_len ≤ n)
Fits n (no_line status) = status ≡ error

line_end_at-Fits :
    (buf : Bytes) (policy : Policy) (lf : ℕ)
    → lf < length buf
    → Fits (length buf) (line_end_at buf policy lf)
line_end_at-Fits buf policy lf h = elim (Bool-cases (ltb 0 lf && get_or buf (lf - 1) 0 == b'\r')) [
  | inl crlf ↦ rw crlf (ground arith)
  | inr bare ↦ rw bare (elim (Bool-cases policy.reject_bare_lf) [
    | inl strict ↦ rw strict refl
    | inr lenient ↦ rw lenient (omega arith)
  ])
]

find_line_end-some :
    (buf : Bytes) (policy : Policy) {lf : ℕ}
    → memchr b'\n' buf ≡ some lf
    → find_line_end buf policy ≡ line_end_at buf policy lf
unfolding find_line_end
find_line_end-some buf policy h = rw (h, find_line_end)

pub find_line_end-none :
    (buf : Bytes) (policy : Policy)
    → memchr b'\n' buf ≡ none
    → find_line_end buf policy ≡ no_line incomplete
unfolding find_line_end
find_line_end-none buf policy h = rw (h, find_line_end)

pub find_line_end-Fits :
    (buf : Bytes) (policy : Policy) {lf : ℕ}
    → memchr b'\n' buf ≡ some lf
    → Fits (length buf) (find_line_end buf policy)
find_line_end-Fits buf policy {lf} h =
    rw (find_line_end-some buf policy h)
      (line_end_at-Fits buf policy lf (memchr-lt-length b'\n' buf h))

pub find_line_end-append :
    (xs ys : Bytes) (policy : Policy) {lf : ℕ}
    → memchr b'\n' xs ≡ some lf
    → find_line_end (xs ++ ys) policy ≡ find_line_end xs policy
find_line_end-append xs ys policy {lf} h =
    let before : (0 < lf) → get_or (xs ++ ys) (lf - 1) 0 ≡ get_or xs (lf - 1) 0 =
      λ pos. get_or-append_left xs ys (lf - 1) 0 (omega (arith, memchr-lt-length b'\n' xs h)) in
    find_line_end-some (xs ++ ys) policy (memchr-append_left b'\n' xs ys h)
    ∙ same_at before
    ∙ sym (find_line_end-some xs policy h)
  where
    same_at :
        ((0 < lf) → get_or (xs ++ ys) (lf - 1) 0 ≡ get_or xs (lf - 1) 0)
        → line_end_at (xs ++ ys) policy lf ≡ line_end_at xs policy lf
    same_at before = ground (arith, before)
