-- ===== src/Parser/StartLine/RoundTrip.antt =====
-- `parse_request_line` of src/ihtp_parser.c on a printed request line.
use iohttpparser.Base.{ℕ, ◌+◌, Bytes, length}
use iohttpparser.Parser.Method.{method_from_str}
use iohttpparser.Types.{HttpVersion, Request}

-- What the parser makes of a printed request line: the spans, the method, the version.
abbrev pub read_request : ℕ → Request → Bytes → Bytes → HttpVersion → Request
read_request base req method target version = record req {
  method_str = base;
  method_len = length method;
  method = method_from_str method;
  path = base + length method + 1;
  path_len = length target;
  version = version;
}
