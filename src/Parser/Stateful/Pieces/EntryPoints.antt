-- ===== src/Parser/Stateful/Pieces/EntryPoints.antt =====
-- The three stateful entry points of src/ihtp_parser.c in the caller's loop.
use iohttpparser.Base.{ℕ, ◌≤◌, Option, List, ◌++◌, Bytes, length}
use iohttpparser.Parser.Stateful.{
  HeaderArray, parse_request_stateful, parse_response_stateful, parse_headers_stateful,
}
use iohttpparser.Parser.Stateful.HeaderArrays.{parse_headers_stateful_resume}
use iohttpparser.Parser.Stateful.Incremental.{parse_request_stateful_resume}
use iohttpparser.Parser.Stateful.Pieces.{EntryPoint, feed, joined, Agrees, feed-Agrees}
use iohttpparser.Parser.Stateful.Reach.EntryPoints.{
  parse_request_stateful_reach, parse_response_stateful_reach, parse_headers_stateful_reach,
}
use iohttpparser.Parser.Stateful.Responses.{parse_response_stateful_resume}
use iohttpparser.Parser.Stateful.Stable.{parse_request_stateful-append}
use iohttpparser.Parser.Stateful.StableResponse.{
  parse_response_stateful-append, parse_headers_stateful-append,
}
use iohttpparser.Parser.Stateful.Totality.{request_returns, response_returns, headers_returns}
use iohttpparser.Types.{ParserState, Request, Response, Policy}

abbrev pub request_entry : Option Policy → EntryPoint Request
request_entry policy = record {
  call = λ state buf req consumed. parse_request_stateful state buf req policy consumed;
  returns = λ state buf req consumed. request_returns state buf req policy consumed;
  reach = λ state buf req consumed p inside call.
      parse_request_stateful_reach state buf req policy consumed p inside call;
  append = λ state xs ys req consumed p inside call no_more no_long.
      parse_request_stateful-append state xs ys req policy consumed p inside call no_more no_long;
  resume = λ state xs ys req k k' k'' first inside call more.
      parse_request_stateful_resume state xs ys req policy k k' k'' first inside call more;
}

abbrev pub response_entry : Option Policy → EntryPoint Response
response_entry policy = record {
  call = λ state buf resp consumed. parse_response_stateful state buf resp policy consumed;
  returns = λ state buf resp consumed. response_returns state buf resp policy consumed;
  reach = λ state buf resp consumed p inside call.
      parse_response_stateful_reach state buf resp policy consumed p inside call;
  append = λ state xs ys resp consumed p inside call no_more no_long.
      parse_response_stateful-append state xs ys resp policy consumed p inside call no_more no_long;
  resume = λ state xs ys resp k k' k'' first inside call more.
      parse_response_stateful_resume state xs ys resp policy k k' k'' first inside call more;
}

abbrev pub headers_entry : ℕ → Option Policy → EntryPoint HeaderArray
headers_entry max_headers policy = record {
  call = λ state buf array consumed.
      parse_headers_stateful state buf array max_headers policy consumed;
  returns = λ state buf array consumed. headers_returns state buf array max_headers policy consumed;
  reach = λ state buf array consumed p inside call.
      parse_headers_stateful_reach state buf array max_headers policy consumed p inside call;
  append = λ state xs ys array consumed p inside call no_more no_long.
      parse_headers_stateful-append state xs ys array max_headers policy consumed p inside call
        no_more no_long;
  resume = λ state xs ys array k k' k'' first inside call more.
      parse_headers_stateful_resume state xs ys array max_headers policy k k' k'' first inside call
        more;
}

-- A request in any number of pieces, from any state whose cursor lies in the first of them: the
-- caller's loop and one call on all the bytes both return. Unless the loop ends with `TOO_LONG`, a
-- caller sees no difference: the results are equal (the status, the state, the output with its
-- headers, the bytes consumed), or both calls fail with the same status, in the error phase.
pub parse_request_stateful_pieces :
    (pieces : List Bytes) (state : ParserState) (buf : Bytes) (req : Request)
    (policy : Option Policy) (consumed : ℕ)
    → state.cursor ≤ length buf
    → Agrees
        (feed (request_entry policy).call pieces state buf req consumed)
        (parse_request_stateful state (buf ++ joined pieces) req policy consumed)
parse_request_stateful_pieces pieces state buf req policy consumed inside =
    feed-Agrees (request_entry policy) pieces state buf req consumed inside

-- A response in any number of pieces, from any state whose cursor lies in the first of them: the
-- caller's loop and one call on all the bytes both return. Unless the loop ends with `TOO_LONG`, a
-- caller sees no difference: the results are equal (the status, the state, the output with its
-- headers, the bytes consumed), or both calls fail with the same status, in the error phase.
pub parse_response_stateful_pieces :
    (pieces : List Bytes) (state : ParserState) (buf : Bytes) (resp : Response)
    (policy : Option Policy) (consumed : ℕ)
    → state.cursor ≤ length buf
    → Agrees
        (feed (response_entry policy).call pieces state buf resp consumed)
        (parse_response_stateful state (buf ++ joined pieces) resp policy consumed)
parse_response_stateful_pieces pieces state buf resp policy consumed inside =
    feed-Agrees (response_entry policy) pieces state buf resp consumed inside

-- A header block in any number of pieces, from any state whose cursor lies in the first of them: the
-- caller's loop and one call on all the bytes both return. Unless the loop ends with `TOO_LONG`, a
-- caller sees no difference: the results are equal (the status, the state, the output with its
-- headers, the bytes consumed), or both calls fail with the same status, in the error phase.
pub parse_headers_stateful_pieces :
    (pieces : List Bytes) (state : ParserState) (buf : Bytes) (array : HeaderArray)
    (max_headers : ℕ) (policy : Option Policy) (consumed : ℕ)
    → state.cursor ≤ length buf
    → Agrees
        (feed (headers_entry max_headers policy).call pieces state buf array consumed)
        (parse_headers_stateful state (buf ++ joined pieces) array max_headers policy consumed)
parse_headers_stateful_pieces pieces state buf array max_headers policy consumed inside =
    feed-Agrees (headers_entry max_headers policy) pieces state buf array consumed inside
