-- ===== src/Parser/Stateful/RoundTrip.antt =====
-- `ihtp_parse_request` of src/ihtp_parser.c on a printed request head.
use iohttpparser.Base.{ℕ, ◌+◌, ◌≤◌, ◌<◌, List, ◌++◌, Bytes, length}
use iohttpparser.Parser.Headers.RoundTrip.{print_fields, AllFields, after}
use iohttpparser.Parser.Headers.{Block}
use iohttpparser.Parser.Line.Print.{Field}
use iohttpparser.Parser.Print.{AllToken, print_request_text, print_line_end}
use iohttpparser.Parser.StartLine.RoundTrip.{read_request}
use iohttpparser.Parser.Stateful.{Parsed}
use iohttpparser.Parser.Text.Classes.{AllTarget}
use iohttpparser.Scanner.Backends.{AllBytes}
use iohttpparser.Types.{
  ok, HttpVersion, mode_request, phase_headers, phase_done, ParserState, Request, zero_request,
  Policy, max_request_line, max_headers_limit,
}

-- A request head: what is printed, without what is behind it.
pub record Head : Type 0 where
  pub method : Bytes
  pub target : Bytes
  pub version : HttpVersion
  pub fields : List Field

abbrev pub start_line : Head → Bytes
start_line h = print_request_text h.method h.target h.version

abbrev pub print_head : Head → Bytes → Bytes
print_head h rest = start_line h ++ print_line_end (print_fields h.fields (print_line_end rest))

-- The head is in the grammar, and within the limits of the parser.
pub record IsHead (policy : Policy) (h : Head) : Type 0 where
  pub token : AllToken h.method
  pub some_method : 0 < length h.method
  pub targets : AllTarget policy.allow_spaces_in_uri h.target
  pub bytes : AllBytes h.target
  pub some_target : 0 < length h.target
  pub short : length (start_line h) ≤ max_request_line
  pub fields : AllFields h.fields
  pub room : length h.fields ≤ max_headers_limit

-- The header block behind the start line, as it is read.
abbrev pub read_block : Head → Block
read_block h =
    after (length (start_line h) + 2)
      (record { headers = zero_request.headers; count = 0; pos = 0 }) h.fields

abbrev pub read_head : Head → Parsed Request
read_head h =
    let end = length (start_line h) + 2 + ((read_block h).pos + 2) in
    record {
      status = ok;
      state = record { mode = mode_request; phase = phase_done; cursor = end };
      out = record (read_request 0 zero_request h.method h.target h.version) {
        headers = (read_block h).headers;
        num_headers = (read_block h).count;
      };
      bytes_consumed = end;
    }

module _ (h : Head) (rest : Bytes) (policy : Policy) (i : IsHead policy h) where
  abbrev n : ℕ
  n = length (start_line h) + 2

  abbrev wire : Bytes
  wire = print_head h rest

  abbrev req : Request
  req = read_request 0 zero_request h.method h.target h.version

  abbrev in_headers : ℕ → ParserState
  in_headers cursor = record { mode = mode_request; phase = phase_headers; cursor = cursor }
