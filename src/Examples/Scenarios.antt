-- ===== src/Examples/Scenarios.antt =====
-- The consumer's scenarios of bench/ on small wires.
use iohttpparser.Base.{
  ℕ, ◌+◌, ◌*◌, ◌%◌, ◌^◌, ◌≡◌, refl, arith, Bool, Option, none, some, [], ◌∷◌, ◌++◌, Bytes, codes,
  length, take, true, false, ◌==◌,
}
use iohttpparser.Base
use iohttpparser.Body.Chunked.Grammar.{SizeLine, Chunk, print_body, AllChunks, IsSize}
use iohttpparser.Chars
use iohttpparser.Consumer.{success, ◌>>=◌, ◌>>◌, guard}
use iohttpparser.Consumer.Pipeline.{IsRequest, scenario_consumer_iohttp_pipeline_lem}
use iohttpparser.Consumer.Requests.{
  first_request, scenario_stateful_reuse_request, scenario_consumer_iohttp_pipeline,
}
use iohttpparser.Consumer.Reuse.{scenario_stateful_reuse_request_lem}
use iohttpparser.Parser.Line
use iohttpparser.Parser.Method.{method_from_str}
use iohttpparser.Parser.StartLine
use iohttpparser.Parser.Stateful.{Parsed, parse_request}
use iohttpparser.Parser.Text
use iohttpparser.Scanner.{is_token_scalar}
use iohttpparser.Semantics.Fields
use iohttpparser.Semantics.Headers
use iohttpparser.Semantics.Request.{request_apply_semantics}
use iohttpparser.Types.{
  error, mode_request, phase_start_line, Request, zero_request, policy_strict, policy_iohttp,
}

abbrev result_of : Option (Parsed Request) → Parsed Request
result_of none = record {
  status = error;
  state = record { mode = mode_request; phase = phase_start_line; cursor = 0 };
  out = zero_request;
  bytes_consumed = 0;
}
result_of (some p) = p

abbrev head : Bytes
head = codes "POST / HTTP/1.1\r\nHost:x\r\nTransfer-Encoding:chunked\r\n\r\n"

abbrev next : Bytes
next = codes "GET / HTTP/1.1\r\nHost:x\r\n\r\n"

abbrev parsed_text : Bytes → Parsed Request
parsed_text text = result_of (parse_request text (some policy_iohttp) 0)

head-IsRequest : IsRequest is_token_scalar head
unfolding parse_request iohttpparser.Parser.StartLine.parse_request_line
    iohttpparser.Parser.Line.find_line_end iohttpparser.Parser.Line.find_method_space
    iohttpparser.Chars.is_token_char iohttpparser.Parser.Line.find_last_char_offset
    iohttpparser.Parser.Text.request_target_is_valid iohttpparser.Base.bytes_eq
    iohttpparser.Parser.Headers.parse_header_block iohttpparser.Chars.is_lws
    iohttpparser.Parser.Line.find_header_name_colon
    iohttpparser.Parser.Line.trim_and_validate_field_value method_from_str request_apply_semantics
    is_token_scalar iohttpparser.Semantics.Headers.header_name_eq
    iohttpparser.Semantics.Headers.seen_transfer_encoding
    iohttpparser.Semantics.Fields.parse_transfer_encoding
    iohttpparser.Semantics.Fields.bytes_eq_ignore_case
head-IsRequest = record {
  p = parsed_text head;
  req =
      (request_apply_semantics is_token_scalar head (parsed_text head).out (some policy_iohttp)).1;
  call = refl;
  accepted = refl;
  whole = refl;
  means = refl;
}

next-IsRequest : IsRequest is_token_scalar next
unfolding parse_request iohttpparser.Parser.StartLine.parse_request_line
    iohttpparser.Parser.Line.find_line_end iohttpparser.Parser.Line.find_method_space
    iohttpparser.Chars.is_token_char iohttpparser.Parser.Line.find_last_char_offset
    iohttpparser.Parser.Text.request_target_is_valid iohttpparser.Base.bytes_eq
    iohttpparser.Parser.Headers.parse_header_block iohttpparser.Chars.is_lws
    iohttpparser.Parser.Line.find_header_name_colon
    iohttpparser.Parser.Line.trim_and_validate_field_value method_from_str request_apply_semantics
    is_token_scalar iohttpparser.Semantics.Headers.header_name_eq
    iohttpparser.Semantics.Headers.seen_transfer_encoding
    iohttpparser.Semantics.Fields.parse_transfer_encoding
    iohttpparser.Semantics.Fields.bytes_eq_ignore_case
next-IsRequest = record {
  p = parsed_text next;
  req =
      (request_apply_semantics is_token_scalar next (parsed_text next).out (some policy_iohttp)).1;
  call = refl;
  accepted = refl;
  whole = refl;
  means = refl;
}

abbrev three : Chunk
three = record {
  size = record { digits = record { upper = false; value = 3 } ∷ []; extension = none };
  content = codes "abc";
}

abbrev last_size : SizeLine
last_size = record { digits = record { upper = false; value = 0 } ∷ []; extension = none }

three-AllChunks : AllChunks (three ∷ [])
three-AllChunks = (
  record {
    all_digits = (omega arith, tt);
    some_digit = omega arith;
    few_digits = omega arith;
    stands_for = refl;
    plain = tt;
  },
  omega arith,
  tt,
)

last_size-IsSize : IsSize last_size 0
last_size-IsSize = record {
  all_digits = (omega arith, tt);
  some_digit = omega arith;
  few_digits = omega arith;
  stands_for = refl;
  plain = tt;
}

scenario_consumer_iohttp_pipeline_lem_example :
    let wire = head ++ print_body (three ∷ []) last_size [] next in
    scenario_consumer_iohttp_pipeline is_token_scalar wire
    ≡ success ((length wire + length next) % 2 ^ 64)
scenario_consumer_iohttp_pipeline_lem_example =
    scenario_consumer_iohttp_pipeline_lem is_token_scalar head next (three ∷ []) last_size []
      head-IsRequest next-IsRequest three-AllChunks last_size-IsSize tt (omega arith)

scenario_stateful_reuse_request_lem_example : scenario_stateful_reuse_request next ≡ do
  p ← first_request next policy_strict
  guard (p.bytes_consumed == length next)
  success (length next * 2 % 2 ^ 64)
scenario_stateful_reuse_request_lem_example = scenario_stateful_reuse_request_lem next
