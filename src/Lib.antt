-- ===== src/Lib.antt =====
-- iohttpparser, an HTTP/1.x parser in C that allocates nothing: src/ and include/iohttpparser/.
--
-- The parts and the files that model them. A buffer is the list of its bytes, numbers below 256; a
-- pointer into the input is an offset from its start; output parameters are results.
--   Types: the enums, records, limits and policies of include/iohttpparser/ihtp_types.h.
--   Chars: the byte classes of src/ihtp_internal.h and the token table of
--     src/ihtp_scanner_scalar.c.
--   Scanner: the scalar, AVX2 and SSE4.2 searches and the run-time dispatch
--     (src/ihtp_scanner_*.c). `select_vtable` is `ihtp_scanner_select_vtable`; a backend is a
--     `ScannerVtable`. Scanner.Backends compares the searches, Scanner.Tokens the token table with
--     the grammar, Scanner.Dispatch puts both together.
--   Parser: src/ihtp_parser.c. Parser.Method, Parser.Line, Parser.Text, Parser.StartLine and
--     Parser.Headers are the static functions; Parser.Stateful has the parser state, the stateful
--     entry points (`ihtp_parse_request_stateful`: `parse_request_stateful`) and the stateless ones.
--     Parser.Print and Parser.Line.Print write the grammar of request heads as printers.
--     Parser.Spans says where stored pointers may point; Parser.Stateful.Invariant, Advance, Stable,
--     Incremental, Responses, HeaderArrays and Pieces are about the state between calls, and
--     Pieces.EntryPoint is the interface that the caller's loop asks of an entry point.
--     `parse_header_block` writes into the header array of the request; a round of its loop is
--     `header_line`.
--   Semantics: src/ihtp_semantics.c. Semantics.Fields has the field value parsers,
--     Semantics.Headers what both messages share, Semantics.Request and Semantics.Response the two
--     `apply_semantics` functions: a loop over the headers that fills the local variables (`Seen`)
--     and the decisions behind it. They read the headers that the parser stored, and the scanner's
--     token test, which is a parameter.
--   Body: src/ihtp_body_decoder.c. Body.Chunked is `ihtp_decode_chunked` on the buffer in place,
--     with the positions `src` and `dst`; Body.Chunked.Stream is a reference without positions,
--     Body.Chunked.Grammar the format. Body.Fixed has the fixed-length decoder.
--   Consumer: how programs compose the library. Consumer.Requests and Consumer.Responses are the
--     scenarios of bench/bench_extended_contract.c, Consumer.Compare the entry points of
--     bench/bench_throughput_compare.c that call this library. A scenario is a do block whose
--     result is `success`, `failure` (it returned false), `undefined_behaviour` (it reads outside
--     of its arrays) or `unfinished` (a model's fuel ran out).
--   Base: names passed on from the libraries, lists over the native numbers, and bits.
--   Examples: the theorems at concrete inputs.
--
-- Fuel: the chunked decoder's loop runs on 2 * n + 2 rounds for n bytes (a round moves `src`, or
-- leaves a chunk without data), the loop of the header block on n + 1 (a round passes a byte), the
-- list parsers of Semantics.Fields on n + 1 (a part passes a byte), the block searches on n + 1.
-- A decoder state that the `switch` has no case for makes the chunked decoder loop for ever, and
-- runs out of any fuel. The conversion of a byte count to the status code `ihtp_status_t` is kept
-- apart: `complete n` holds the count, `status_bits` the C `int`, which is the count below 2 ^ 31.
--
-- A parser state whose cursor lies beyond the buffer is outside of the model: there the C code
-- computes `len - cursor` modulo 2 ^ 64 and reads outside, while `drop` gives no bytes. The
-- theorems that depend on it take a cursor in the buffer as a hypothesis, and a call with the
-- cursor in the buffer leaves it there.
--
-- Not modelled: null pointers (every pointer passed is valid), the counters of IHTP_PERF_TRACE,
-- which nothing reads, and what surrounds the library: clocks, printing, arguments and the adapters
-- to other parsers in bench/, bench/bench_parser.c, examples/ and tests/. `memcpy`, `strstr` and
-- `strlen` are written out where the scenarios call them. The instruction `_mm_cmpestri`, the
-- build's features and the processor's answers are parameters.
mod Base
pub mod Types
pub mod Chars
pub mod Body
pub mod Scanner
pub mod Parser
pub mod Semantics
pub mod Consumer
pub mod Examples
