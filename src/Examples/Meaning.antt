-- ===== src/Examples/Meaning.antt =====
-- src/ihtp_semantics.c on small messages.
use iohttpparser.Base.{
  arith, ◌≡◌, refl, true, false, not, ◌&&◌, none, some, [], ◌∷◌, Bytes, codes, length, ltb, ◌^◌,
  if◌then◌else◌,
}
use iohttpparser.Chars
use iohttpparser.Parser.Print.{Without-check, is_without}
use iohttpparser.Parser.Stateful.{resolve_policy}
use iohttpparser.Scanner.{is_token_scalar}
use iohttpparser.Semantics.Fields.Decimal.{all_digits, decimal_from, parse_content_length_lem}
use iohttpparser.Semantics.Fields.Codings.{
  last_text, names_chunked, count_chunked, parse_transfer_encoding-join,
}
use iohttpparser.Semantics.Fields.Lists.{join, print_parts, fold_texts, parse_parts-join}
use iohttpparser.Semantics.Fields.Parts.{Part, print_part}
use iohttpparser.Semantics.Fields.{
  parse_content_length, parse_parts, trailer_step, parse_transfer_encoding,
}
use iohttpparser.Semantics.Headers
use iohttpparser.Semantics.Request.Framing.{has_header, request_apply_semantics_framing}
use iohttpparser.Semantics.Request.{request_apply_semantics, is_http_11}
use iohttpparser.Semantics.Response.Framing.{
  response_has, forbids_body, response_apply_semantics_framing,
}
use iohttpparser.Semantics.Headers.Chunked.{last_coding_chunked}
use iohttpparser.Semantics.Response.{response_apply_semantics}
use iohttpparser.Types.{
  ok, Header, Request, Response, zero_request, zero_response, http_11, body_none, body_fixed,
  body_chunked, body_eof,
}

abbrev input : Bytes
input = codes "Host:xContent-Length:5"

abbrev host_header : Header
host_header = record { name = 0; name_len = 4; value = 5; value_len = 1 }

abbrev length_header : Header
length_header = record { name = 6; name_len = 14; value = 21; value_len = 1 }

abbrev request : Request
request = record zero_request {
  version = http_11;
  headers = host_header ∷ length_header ∷ [];
  num_headers = 2;
}

abbrev accepted : Request
accepted = record request { body_mode = body_fixed; content_length = 5; keep_alive = true }

request_run : request_apply_semantics is_token_scalar input request none ≡ (ok, accepted)
unfolding request_apply_semantics iohttpparser.Semantics.Headers.header_name_eq
    iohttpparser.Semantics.Headers.seen_content_length parse_content_length
    iohttpparser.Chars.is_digit
request_run = refl

request_apply_semantics_framing_example :
    let te = has_header input request (codes "transfer-encoding") in
    let cl = has_header input request (codes "content-length") in
    (accepted.body_mode ≡ (if te then body_chunked else if cl then body_fixed else body_none))
    × ((te && cl && (resolve_policy none).reject_te_cl) ≡ false)
    × ((is_http_11 request.version && not (has_header input request (codes "host"))) ≡ false)
request_apply_semantics_framing_example =
    request_apply_semantics_framing is_token_scalar input request none accepted request_run

abbrev response : Response
response = record zero_response {
  version = http_11;
  status_code = 200;
  headers = length_header ∷ [];
  num_headers = 1;
}

abbrev accepted_response : Response
accepted_response = record response {
  body_mode = body_fixed;
  content_length = 5;
  keep_alive = true;
}

response_run :
    response_apply_semantics is_token_scalar input response none ≡ (ok, accepted_response)
unfolding response_apply_semantics iohttpparser.Semantics.Headers.header_name_eq
    iohttpparser.Semantics.Headers.seen_content_length parse_content_length
    iohttpparser.Chars.is_digit
response_run = refl

response_apply_semantics_framing_example :
    let te = response_has input response (codes "transfer-encoding") in
    let cl = response_has input response (codes "content-length") in
    let chunked = last_coding_chunked is_token_scalar input false (length_header ∷ []) in
    (accepted_response.body_mode ≡ (
      if forbids_body response.status_code
      then body_none
      else if te && chunked
      then body_chunked
      else if cl
      then body_fixed
      else body_eof))
    × ((te && cl && (resolve_policy none).reject_te_cl) ≡ false)
response_apply_semantics_framing_example =
    response_apply_semantics_framing is_token_scalar input response none accepted_response
      response_run

parse_content_length_lem_example : parse_content_length (codes "042") ≡ (
    if ltb 0 (length (codes "042"))
      && all_digits (codes "042")
      && ltb (decimal_from 0 (codes "042")) (2 ^ 64)
    then some (decimal_from 0 (codes "042"))
    else none)
parse_content_length_lem_example = parse_content_length_lem (codes "042")

abbrev part_a : Part
part_a = record { before = []; text = codes "a"; after = codes " " }

abbrev part_b : Part
part_b = record { before = codes " "; text = codes "b"; after = [] }

parse_parts-join_example :
    parse_parts
      (trailer_step is_token_scalar)
      false
      (join (print_part part_a) (print_parts (part_b ∷ [])))
    ≡ fold_texts (trailer_step is_token_scalar) false (part_a ∷ part_b ∷ [])
unfolding iohttpparser.Chars.is_lws
parse_parts-join_example =
    parse_parts-join (trailer_step is_token_scalar) false part_a (part_b ∷ [])
      (
        record {
          white_before = tt;
          white_after = (refl, tt);
          text_start = refl;
          text_end = refl;
          no_comma = ((cc), tt);
        },
        (
          record {
            white_before = (refl, tt);
            white_after = tt;
            text_start = refl;
            text_end = refl;
            no_comma = ((cc), tt);
          },
          tt,
        ),
      )
      (omega arith)

abbrev part_gzip : Part
part_gzip = record { before = []; text = codes "gzip"; after = codes " " }

abbrev part_chunked : Part
part_chunked = record { before = codes " "; text = codes "Chunked"; after = [] }

parse_transfer_encoding-join_example :
    parse_transfer_encoding is_token_scalar
      (join (print_part part_gzip) (print_parts (part_chunked ∷ [])))
    ≡ some (
      names_chunked (last_text part_gzip (part_chunked ∷ [])),
      count_chunked (part_gzip ∷ part_chunked ∷ []),
    )
unfolding iohttpparser.Chars.is_lws is_without is_token_scalar iohttpparser.Chars.is_token_char
parse_transfer_encoding-join_example =
    parse_transfer_encoding-join is_token_scalar part_gzip (part_chunked ∷ [])
      (
        record {
          white_before = tt;
          white_after = (refl, tt);
          text_start = refl;
          text_end = refl;
          no_comma = ((cc), ((cc), ((cc), ((cc), tt))));
        },
        (
          record {
            white_before = (refl, tt);
            white_after = tt;
            text_start = refl;
            text_end = refl;
            no_comma = ((cc), ((cc), ((cc), ((cc), ((cc), ((cc), ((cc), tt)))))));
          },
          tt,
        ),
      )
      (
        record {
          some_text = omega arith;
          token = refl;
          plain = Without-check b';' (codes "gzip") refl;
        },
        (
          record {
            some_text = omega arith;
            token = refl;
            plain = Without-check b';' (codes "Chunked") refl;
          },
          tt,
        ),
      )
