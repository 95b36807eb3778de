-- ===== src/Parser/Stateful/Joined.antt =====
-- Two calls of a stateful entry point of src/ihtp_parser.c and one call on all the bytes.
use iohttpparser.Base.{ℕ, ◌≡◌, ap, ◌∙◌, Option, some, some-≡}
use iohttpparser.Parser.Stateful.{Parsed}
use iohttpparser.Parser.Stateful.HeadersPhase.{SameResult}
use iohttpparser.Types.{incomplete, ParserMode, phase_start_line, phase_headers, ParserState}

-- Both calls return, a caller sees no difference, and the first call kept the mode.
pub record Joined {A : Type 0} (mode : ParserMode) (first : Parsed A)
    (second whole : Option (Parsed A)) : Type 0 where
  pub p : Parsed A
  pub q : Parsed A
  pub second_is : second ≡ some p
  pub whole_is : whole ≡ some q
  pub same : SameResult p q
  pub kept : first.state.mode ≡ mode

-- A parser in the header phase, and before the start line.
abbrev pub in_headers : ParserMode → ℕ → ParserState
in_headers mode cursor = record { mode = mode; phase = phase_headers; cursor = cursor }

abbrev pub at_start : ParserMode → ℕ → ParserState
at_start mode cursor = record { mode = mode; phase = phase_start_line; cursor = cursor }

pub status_of_first :
    {A : Type 0} {first : Parsed A} (p : Parsed A)
    → some p ≡ some first
    → first.status ≡ incomplete
    → p.status ≡ incomplete
status_of_first {A = A} p call early = ap (λ (p : Parsed A). p.status) (some-≡ call) ∙ early
