-- ===== src/Examples/Parsing.antt =====
-- The parser of src/ihtp_parser.c on a small request.
use iohttpparser.Base.{
  ℕ, ◌+◌, ◌≡◌, ◌≢◌, ◌↔◌, ◌≤◌, refl, arith, Bool, true, false, Option, none, some, List, [], ◌∷◌,
  ◌++◌, Bytes, codes, length, drop, replicate,
}
use iohttpparser.Base
use iohttpparser.Chars
use iohttpparser.Parser.Headers.{BlockReturn, parse_header_block}
use iohttpparser.Parser.Headers.Resume.Step.{Ends}
use iohttpparser.Parser.Headers.Resume.{parse_header_block_returns}
use iohttpparser.Parser.Headers.Resumed.{parse_header_block_resume}
use iohttpparser.Parser.Headers.Shift.{later_result}
use iohttpparser.Parser.Line
use iohttpparser.Parser.Method.{method_from_str, method_to_str, method_from_str-method_to_str}
use iohttpparser.Parser.StartLine
use iohttpparser.Parser.Stateful.{
  HeaderArray, parse_response_stateful, parse_headers_stateful, Parsed, parse_request,
  parse_request_stateful,
}
use iohttpparser.Parser.Stateful.HeadersPhase.{SameResult}
use iohttpparser.Parser.Stateful.Incremental.{parse_request_stateful_resume}
use iohttpparser.Parser.Stateful.Reach.EntryPoints.{ReturnsInside, entry_points-ReturnsInside}
use iohttpparser.Parser.Text
use iohttpparser.Parser.Text.Classes.{
  AllTarget, AllFieldText, request_target_is_valid_iff, field_text_is_valid_iff,
}
use iohttpparser.Parser.Text.{request_target_is_valid, field_text_is_valid}
use iohttpparser.Types.{
  Status, ok, incomplete, get, Header, zero_header, policy_strict, ParserState, mode_request,
  phase_start_line, phase_headers, Request, zero_request, zero_response, http_11,
}

abbrev status_of : Option (Parsed Request) → Option (Status × ℕ × ℕ)
status_of none = none
status_of (some p) = some (p.status, p.bytes_consumed, p.out.num_headers)

get_request :
    status_of (parse_request (codes "GET /a HTTP/1.1\r\nHost: x\r\n\r\nrest") none 7)
    ≡ some (ok, 28, 1)
unfolding parse_request iohttpparser.Parser.StartLine.parse_request_line
    iohttpparser.Parser.Line.find_line_end iohttpparser.Parser.Line.find_method_space
    iohttpparser.Chars.is_token_char iohttpparser.Parser.Line.find_last_char_offset
    iohttpparser.Parser.Text.request_target_is_valid iohttpparser.Base.bytes_eq
    iohttpparser.Parser.Headers.parse_header_block iohttpparser.Chars.is_lws
    iohttpparser.Parser.Line.find_header_name_colon
    iohttpparser.Parser.Line.trim_and_validate_field_value
get_request = refl

abbrev first_piece : Bytes
first_piece = codes "GET / HTTP/1.1\r\nA: b\r\nHo"

abbrev second_piece : Bytes
second_piece = codes "st: x\r\n\r\n"

abbrev start : ParserState
start = record { mode = mode_request; phase = phase_start_line; cursor = 0 }

abbrev header_a : Header
header_a = record { name = 16; name_len = 1; value = 19; value_len = 1 }

-- What the call on the first piece leaves.
abbrev first_result : Parsed Request
first_result = record {
  status = incomplete;
  state = record { mode = mode_request; phase = phase_headers; cursor = 22 };
  out = record zero_request {
    method = get;
    method_str = 0;
    method_len = 3;
    path = 4;
    path_len = 1;
    version = http_11;
    headers = header_a ∷ replicate 63 zero_header;
    num_headers = 1;
  };
  bytes_consumed = 0;
}

first_run : parse_request_stateful start first_piece zero_request none 0 ≡ some first_result
unfolding parse_request_stateful iohttpparser.Parser.StartLine.parse_request_line
    iohttpparser.Parser.Line.find_line_end iohttpparser.Parser.Line.find_method_space
    iohttpparser.Chars.is_token_char iohttpparser.Parser.Line.find_last_char_offset
    iohttpparser.Parser.Text.request_target_is_valid iohttpparser.Base.bytes_eq
    iohttpparser.Parser.Headers.parse_header_block iohttpparser.Chars.is_lws
    iohttpparser.Parser.Line.find_header_name_colon
    iohttpparser.Parser.Line.trim_and_validate_field_value method_from_str
first_run = refl

parse_request_stateful_resume_example :
    (second whole : Parsed Request) × (parse_request_stateful first_result.state
        (first_piece ++ second_piece)
        first_result.out
        none
        0
      ≡ some second)
    × (parse_request_stateful start (first_piece ++ second_piece) zero_request none 0 ≡ some whole)
    × SameResult second whole
parse_request_stateful_resume_example =
    parse_request_stateful_resume start first_piece second_piece zero_request none 0 0 0
      first_result (omega arith) first_run refl

abbrev two_headers : List Header
two_headers = zero_header ∷ zero_header ∷ []

abbrev cut_block : Bytes
cut_block = codes "A: b\r\nC"

abbrev cut_block_return : BlockReturn
cut_block_return = record {
  status = incomplete;
  headers = record { name = 0; name_len = 1; value = 3; value_len = 1 } ∷ zero_header ∷ [];
  num_headers = some 1;
  block_end = some 6;
}

cut_block_run : parse_header_block 0 cut_block two_headers 0 2 policy_strict ≡ some cut_block_return
unfolding parse_header_block iohttpparser.Chars.is_lws iohttpparser.Parser.Line.find_line_end
    iohttpparser.Parser.Line.find_header_name_colon iohttpparser.Chars.is_token_char
    iohttpparser.Parser.Line.trim_and_validate_field_value
cut_block_run = refl

parse_header_block_resume_example :
    (headers' : List Header) × (count' : ℕ) × (block_end : ℕ) × (cut_block_return ≡ record {
      status = incomplete;
      headers = headers';
      num_headers = some count';
      block_end = some block_end;
    })
    × (block_end ≤ length cut_block)
    × (parse_header_block 0 (cut_block ++ codes ": d\r\n\r\n") two_headers 0 2 policy_strict
        ≡ later_result block_end (
            parse_header_block
              (0 + block_end)
              (drop block_end (cut_block ++ codes ": d\r\n\r\n"))
              headers'
              count'
              2
              policy_strict))
parse_header_block_resume_example =
    parse_header_block_resume 0 cut_block (codes ": d\r\n\r\n") two_headers 0 2 policy_strict
      cut_block_return cut_block_run refl

parse_header_block_returns_example :
    (r : BlockReturn) × (parse_header_block 0 cut_block two_headers 0 2 policy_strict ≡ some r)
    × Ends r
parse_header_block_returns_example =
    parse_header_block_returns 0 cut_block two_headers 0 2 policy_strict

request_target_is_valid_iff_example :
    (request_target_is_valid (codes "/a") false ≡ true) ↔ AllTarget false (codes "/a")
request_target_is_valid_iff_example =
    request_target_is_valid_iff (codes "/a") false (omega arith, (omega arith, tt))

field_text_is_valid_iff_example :
    (field_text_is_valid (codes "a\t") ≡ true) ↔ AllFieldText (codes "a\t")
field_text_is_valid_iff_example =
    field_text_is_valid_iff (codes "a\t") (omega arith, (omega arith, tt))

method_from_str-method_to_str_example :
    (method_from_str (codes "GET") ≡ get) ↔ (codes "GET" ≡ codes (method_to_str get))
method_from_str-method_to_str_example = method_from_str-method_to_str (codes "GET") get (cc)

abbrev no_headers : HeaderArray
no_headers = record { headers = two_headers; num_headers = 0 }

entry_points-ReturnsInside_example :
    let n = length first_piece in
    ReturnsInside n (parse_request_stateful start first_piece zero_request none 0)
    × ReturnsInside n (parse_response_stateful start first_piece zero_response none 0)
    × ReturnsInside n (parse_headers_stateful start first_piece no_headers 2 none 0)
entry_points-ReturnsInside_example =
    entry_points-ReturnsInside start first_piece zero_request zero_response no_headers 2 none 0
      (omega arith)
