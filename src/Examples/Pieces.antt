-- ===== src/Examples/Pieces.antt =====
-- The stateful entry points of src/ihtp_parser.c on pieces of a message.
use iohttpparser.Base.{
  ℕ, ◌+◌, ◌≡◌, ◌≢◌, ◌≤◌, refl, sym, ◌∙◌, arith, Option, none, some, List, [], ◌∷◌, ◌++◌, Bytes,
  codes, length, take, ◌⊎◌,
}
use iohttpparser.Base
use iohttpparser.Chars
use iohttpparser.Parser.Headers.Bounds.{Told, parse_header_block_placed}
use iohttpparser.Parser.Headers.{BlockReturn, parse_header_block}
use iohttpparser.Parser.Line
use iohttpparser.Parser.Method.{method_from_str}
use iohttpparser.Parser.StartLine
use iohttpparser.Parser.Stateful.{
  HeaderArray, Parsed, parse_request_stateful, parse_response_stateful, parse_headers_stateful,
}
use iohttpparser.Parser.Stateful.Advance.{Moves}
use iohttpparser.Parser.Stateful.Advance.EntryPoints.{entry_points-Moves}
use iohttpparser.Parser.Stateful.HeaderArrays.{parse_headers_stateful_resume}
use iohttpparser.Parser.Stateful.HeadersPhase.{SameResult}
use iohttpparser.Parser.Stateful.Invariant.{IsValid, Leaves}
use iohttpparser.Parser.Stateful.Invariant.EntryPoint.{parse_request_stateful-IsValid}
use iohttpparser.Parser.Stateful.Pieces.{feed, joined, Agrees}
use iohttpparser.Parser.Stateful.Pieces.EntryPoints.{
  request_entry, response_entry, headers_entry, parse_request_stateful_pieces,
  parse_response_stateful_pieces, parse_headers_stateful_pieces,
}
use iohttpparser.Parser.Stateful.Responses.{parse_response_stateful_resume}
use iohttpparser.Parser.Stateful.Stable.{parse_request_stateful-append}
use iohttpparser.Parser.Stateful.StableResponse.{
  parse_response_stateful-append, parse_headers_stateful-append,
}
use iohttpparser.Parser.Text
use iohttpparser.Types.{
  ok, incomplete, error, error_too_long, zero_header, policy_strict, ParserState, mode_request,
  mode_response, mode_headers, phase_start_line, phase_headers, Request, Response, zero_request,
  zero_response,
}

abbrev fresh : ParserState
fresh = record { mode = mode_request; phase = phase_start_line; cursor = 0 }

abbrev result_of : {A : Type 0} → A → Option (Parsed A) → Parsed A
result_of out none = record { status = error; state = fresh; out = out; bytes_consumed = 0 }
result_of out (some p) = p

abbrev piece_1 : Bytes
piece_1 = codes "GET / HTTP/1.1\r\nHo"

abbrev piece_2 : Bytes
piece_2 = codes "st: x\r\n\r\n"

-- A call on a whole request.
abbrev whole_result : Parsed Request
whole_result =
    result_of zero_request (parse_request_stateful fresh (piece_1 ++ piece_2) zero_request none 0)

whole_run :
    parse_request_stateful fresh (piece_1 ++ piece_2) zero_request none 0 ≡ some whole_result
unfolding parse_request_stateful iohttpparser.Parser.StartLine.parse_request_line
    iohttpparser.Parser.Line.find_line_end iohttpparser.Parser.Line.find_method_space
    iohttpparser.Chars.is_token_char iohttpparser.Parser.Line.find_last_char_offset
    iohttpparser.Parser.Text.request_target_is_valid iohttpparser.Base.bytes_eq
    iohttpparser.Parser.Headers.parse_header_block iohttpparser.Chars.is_lws
    iohttpparser.Parser.Line.find_header_name_colon
    iohttpparser.Parser.Line.trim_and_validate_field_value method_from_str
whole_run = refl

whole_status : whole_result.status ≡ ok
unfolding parse_request_stateful iohttpparser.Parser.StartLine.parse_request_line
    iohttpparser.Parser.Line.find_line_end iohttpparser.Parser.Line.find_method_space
    iohttpparser.Chars.is_token_char iohttpparser.Parser.Line.find_last_char_offset
    iohttpparser.Parser.Text.request_target_is_valid iohttpparser.Base.bytes_eq
    iohttpparser.Parser.Headers.parse_header_block iohttpparser.Chars.is_lws
    iohttpparser.Parser.Line.find_header_name_colon
    iohttpparser.Parser.Line.trim_and_validate_field_value method_from_str
whole_status = refl

whole_not_incomplete : whole_result.status ≢ incomplete
whole_not_incomplete e = let wrong : ok ≡ incomplete = sym whole_status ∙ e in absurd (cc)

whole_not_too_long : whole_result.status ≢ error_too_long
whole_not_too_long e = let wrong : ok ≡ error_too_long = sym whole_status ∙ e in absurd (cc)

parse_request_stateful-append_example :
    parse_request_stateful fresh ((piece_1 ++ piece_2) ++ codes "GET") zero_request none 0
    ≡ some whole_result
parse_request_stateful-append_example =
    parse_request_stateful-append fresh (piece_1 ++ piece_2) (codes "GET") zero_request none 0
      whole_result (omega arith) whole_run whole_not_incomplete whole_not_too_long

fresh-IsValid : (n : ℕ) → IsValid n phase_start_line 0 zero_request
unfolding IsValid
fresh-IsValid n = (omega arith, refl)

parse_request_stateful-IsValid_example : Leaves (length (piece_1 ++ piece_2)) whole_result
parse_request_stateful-IsValid_example =
    parse_request_stateful-IsValid fresh (piece_1 ++ piece_2) zero_request none 0 whole_result
      (fresh-IsValid (length (piece_1 ++ piece_2))) whole_run

parse_request_stateful_pieces_example :
    Agrees
      (feed (request_entry none).call (piece_2 ∷ codes "x" ∷ []) fresh piece_1 zero_request 0)
      (parse_request_stateful fresh
        (piece_1 ++ joined (piece_2 ∷ codes "x" ∷ []))
        zero_request
        none
        0)
parse_request_stateful_pieces_example =
    parse_request_stateful_pieces (piece_2 ∷ codes "x" ∷ []) fresh piece_1 zero_request none 0
      (omega arith)

-- Responses and bare header blocks.
abbrev fresh_response : ParserState
fresh_response = record { mode = mode_response; phase = phase_start_line; cursor = 0 }

abbrev answer_1 : Bytes
answer_1 = codes "HTTP/1.1 200 OK\r\nA"

abbrev answer_2 : Bytes
answer_2 = codes ": b\r\n\r\n"

abbrev cut_answer_result : Parsed Response
cut_answer_result =
    result_of zero_response (parse_response_stateful fresh_response answer_1 zero_response none 0)

cut_answer_run :
    parse_response_stateful fresh_response answer_1 zero_response none 0 ≡ some cut_answer_result
unfolding parse_response_stateful iohttpparser.Parser.StartLine.parse_status_line
    iohttpparser.Parser.Line.find_line_end iohttpparser.Chars.is_digit
    iohttpparser.Chars.is_token_char iohttpparser.Parser.Text.field_text_is_valid
    iohttpparser.Base.bytes_eq iohttpparser.Parser.Headers.parse_header_block
    iohttpparser.Chars.is_lws iohttpparser.Parser.Line.find_header_name_colon
    iohttpparser.Parser.Line.trim_and_validate_field_value
cut_answer_run = refl

cut_answer_status : cut_answer_result.status ≡ incomplete
unfolding parse_response_stateful iohttpparser.Parser.StartLine.parse_status_line
    iohttpparser.Parser.Line.find_line_end iohttpparser.Chars.is_digit
    iohttpparser.Chars.is_token_char iohttpparser.Parser.Text.field_text_is_valid
    iohttpparser.Base.bytes_eq iohttpparser.Parser.Headers.parse_header_block
    iohttpparser.Chars.is_lws iohttpparser.Parser.Line.find_header_name_colon
    iohttpparser.Parser.Line.trim_and_validate_field_value
cut_answer_status = refl

parse_response_stateful_resume_example :
    (second whole : Parsed Response) × (parse_response_stateful cut_answer_result.state
        (answer_1 ++ answer_2)
        cut_answer_result.out
        none
        0
      ≡ some second)
    × (parse_response_stateful fresh_response (answer_1 ++ answer_2) zero_response none 0
        ≡ some whole)
    × SameResult second whole
parse_response_stateful_resume_example =
    parse_response_stateful_resume fresh_response answer_1 answer_2 zero_response none 0 0 0
      cut_answer_result (omega arith) cut_answer_run cut_answer_status

parse_response_stateful_pieces_example :
    Agrees
      (feed (response_entry none).call (answer_2 ∷ []) fresh_response answer_1 zero_response 0)
      (parse_response_stateful fresh_response
        (answer_1 ++ joined (answer_2 ∷ []))
        zero_response
        none
        0)
parse_response_stateful_pieces_example =
    parse_response_stateful_pieces (answer_2 ∷ []) fresh_response answer_1 zero_response none 0
      (omega arith)

abbrev answer_result : Parsed Response
answer_result =
    result_of zero_response
      (parse_response_stateful fresh_response (answer_1 ++ answer_2) zero_response none 0)

answer_run :
    parse_response_stateful fresh_response (answer_1 ++ answer_2) zero_response none 0
    ≡ some answer_result
unfolding parse_response_stateful iohttpparser.Parser.StartLine.parse_status_line
    iohttpparser.Parser.Line.find_line_end iohttpparser.Chars.is_digit
    iohttpparser.Chars.is_token_char iohttpparser.Parser.Text.field_text_is_valid
    iohttpparser.Base.bytes_eq iohttpparser.Parser.Headers.parse_header_block
    iohttpparser.Chars.is_lws iohttpparser.Parser.Line.find_header_name_colon
    iohttpparser.Parser.Line.trim_and_validate_field_value
answer_run = refl

answer_status : answer_result.status ≡ ok
unfolding parse_response_stateful iohttpparser.Parser.StartLine.parse_status_line
    iohttpparser.Parser.Line.find_line_end iohttpparser.Chars.is_digit
    iohttpparser.Chars.is_token_char iohttpparser.Parser.Text.field_text_is_valid
    iohttpparser.Base.bytes_eq iohttpparser.Parser.Headers.parse_header_block
    iohttpparser.Chars.is_lws iohttpparser.Parser.Line.find_header_name_colon
    iohttpparser.Parser.Line.trim_and_validate_field_value
answer_status = refl

answer_not_incomplete : answer_result.status ≢ incomplete
answer_not_incomplete e = let wrong : ok ≡ incomplete = sym answer_status ∙ e in absurd (cc)

answer_not_too_long : answer_result.status ≢ error_too_long
answer_not_too_long e = let wrong : ok ≡ error_too_long = sym answer_status ∙ e in absurd (cc)

parse_response_stateful-append_example :
    parse_response_stateful fresh_response
      ((answer_1 ++ answer_2) ++ codes "x")
      zero_response
      none
      0
    ≡ some answer_result
parse_response_stateful-append_example =
    parse_response_stateful-append fresh_response (answer_1 ++ answer_2) (codes "x") zero_response
      none 0 answer_result (omega arith) answer_run answer_not_incomplete answer_not_too_long

abbrev fresh_headers : ParserState
fresh_headers = record { mode = mode_headers; phase = phase_headers; cursor = 0 }

abbrev two : HeaderArray
two = record { headers = zero_header ∷ zero_header ∷ []; num_headers = 0 }

abbrev cut_block_result : Parsed HeaderArray
cut_block_result =
    result_of two (parse_headers_stateful fresh_headers (codes "A: b\r\nC") two 2 none 0)

cut_block_run :
    parse_headers_stateful fresh_headers (codes "A: b\r\nC") two 2 none 0 ≡ some cut_block_result
unfolding parse_headers_stateful iohttpparser.Parser.Line.find_line_end
    iohttpparser.Chars.is_token_char iohttpparser.Parser.Headers.parse_header_block
    iohttpparser.Chars.is_lws iohttpparser.Parser.Line.find_header_name_colon
    iohttpparser.Parser.Line.trim_and_validate_field_value
cut_block_run = refl

cut_block_status : cut_block_result.status ≡ incomplete
unfolding parse_headers_stateful iohttpparser.Parser.Line.find_line_end
    iohttpparser.Chars.is_token_char iohttpparser.Parser.Headers.parse_header_block
    iohttpparser.Chars.is_lws iohttpparser.Parser.Line.find_header_name_colon
    iohttpparser.Parser.Line.trim_and_validate_field_value
cut_block_status = refl

parse_headers_stateful_resume_example :
    (second whole : Parsed HeaderArray) × (parse_headers_stateful cut_block_result.state
        (codes "A: b\r\nC" ++ codes ":\r\n\r\n")
        cut_block_result.out
        2
        none
        0
      ≡ some second)
    × (parse_headers_stateful fresh_headers (codes "A: b\r\nC" ++ codes ":\r\n\r\n") two 2 none 0
        ≡ some whole)
    × SameResult second whole
parse_headers_stateful_resume_example =
    parse_headers_stateful_resume fresh_headers (codes "A: b\r\nC") (codes ":\r\n\r\n") two 2 none 0
      0 0 cut_block_result (omega arith) cut_block_run cut_block_status

parse_headers_stateful_pieces_example :
    Agrees
      (feed
        (headers_entry 2 none).call
        (codes ":\r\n\r\n" ∷ [])
        fresh_headers
        (codes "A: b\r\nC")
        two
        0)
      (parse_headers_stateful fresh_headers
        (codes "A: b\r\nC" ++ joined (codes ":\r\n\r\n" ∷ []))
        two
        2
        none
        0)
parse_headers_stateful_pieces_example =
    parse_headers_stateful_pieces (codes ":\r\n\r\n" ∷ []) fresh_headers (codes "A: b\r\nC") two 2
      none 0 (omega arith)

abbrev block_result : Parsed HeaderArray
block_result =
    result_of two (parse_headers_stateful fresh_headers (codes "A: b\r\n\r\n") two 2 none 0)

block_run :
    parse_headers_stateful fresh_headers (codes "A: b\r\n\r\n") two 2 none 0 ≡ some block_result
unfolding parse_headers_stateful iohttpparser.Parser.Line.find_line_end
    iohttpparser.Chars.is_token_char iohttpparser.Parser.Headers.parse_header_block
    iohttpparser.Chars.is_lws iohttpparser.Parser.Line.find_header_name_colon
    iohttpparser.Parser.Line.trim_and_validate_field_value
block_run = refl

block_status : block_result.status ≡ ok
unfolding parse_headers_stateful iohttpparser.Parser.Line.find_line_end
    iohttpparser.Chars.is_token_char iohttpparser.Parser.Headers.parse_header_block
    iohttpparser.Chars.is_lws iohttpparser.Parser.Line.find_header_name_colon
    iohttpparser.Parser.Line.trim_and_validate_field_value
block_status = refl

block_not_incomplete : block_result.status ≢ incomplete
block_not_incomplete e = let wrong : ok ≡ incomplete = sym block_status ∙ e in absurd (cc)

block_not_too_long : block_result.status ≢ error_too_long
block_not_too_long e = let wrong : ok ≡ error_too_long = sym block_status ∙ e in absurd (cc)

parse_headers_stateful-append_example :
    parse_headers_stateful fresh_headers (codes "A: b\r\n\r\n" ++ codes "x") two 2 none 0
    ≡ some block_result
parse_headers_stateful-append_example =
    parse_headers_stateful-append fresh_headers (codes "A: b\r\n\r\n") (codes "x") two 2 none 0
      block_result (omega arith) block_run block_not_incomplete block_not_too_long

-- A request state is refused by the two other entry points.
abbrev refused_response : Parsed Response
refused_response = record { status = error; state = fresh; out = zero_response; bytes_consumed = 0 }

abbrev refused_headers : Parsed HeaderArray
refused_headers = record { status = error; state = fresh; out = two; bytes_consumed = 0 }

refused_response_run :
    parse_response_stateful fresh (piece_1 ++ piece_2) zero_response none 0 ≡ some refused_response
unfolding parse_response_stateful
refused_response_run = refl

refused_headers_run :
    parse_headers_stateful fresh (piece_1 ++ piece_2) two 2 none 0 ≡ some refused_headers
unfolding parse_headers_stateful
refused_headers_run = refl

entry_points-Moves_example :
    Moves fresh whole_result × Moves fresh refused_response × Moves fresh refused_headers
entry_points-Moves_example =
    entry_points-Moves fresh (piece_1 ++ piece_2) zero_request zero_response two 2 none 0
      whole_result refused_response refused_headers whole_run refused_response_run
      refused_headers_run

abbrev placed_return : BlockReturn
placed_return = record {
  status = ok;
  headers = record { name = 0; name_len = 1; value = 3; value_len = 1 } ∷ zero_header ∷ [];
  num_headers = some 1;
  block_end = some 8;
}

placed_run :
    parse_header_block 0 (codes "A: b\r\n\r\n") two.headers 0 2 policy_strict ≡ some placed_return
unfolding iohttpparser.Parser.Line.find_line_end iohttpparser.Chars.is_token_char
    iohttpparser.Parser.Headers.parse_header_block iohttpparser.Chars.is_lws
    iohttpparser.Parser.Line.find_header_name_colon
    iohttpparser.Parser.Line.trim_and_validate_field_value
placed_run = refl

parse_header_block_placed_example : Told 0 (length (codes "A: b\r\n\r\n")) placed_return
parse_header_block_placed_example =
    parse_header_block_placed 0 (codes "A: b\r\n\r\n") two.headers 0 2 policy_strict placed_return
      tt placed_run
