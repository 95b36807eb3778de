-- ===== src/Parser.antt =====
-- src/ihtp_parser.c: start lines, header blocks and the entry points with and without state.
-- A function on `(buf, len)` takes the list of the `len` bytes. Pointers are never NULL here, but
-- for `policy`; the counters of `IHTP_PERF_TRACE` are left out.
pub mod Method
pub mod Text
pub mod Line
pub mod StartLine
pub mod Headers
pub mod Spans
pub mod Print
pub mod Stateful
