-- ===== src/Types.antt =====
-- include/iohttpparser/ihtp_types.h: limits, enums, policies, and the records that the layers
-- exchange. A pointer into the input buffer is its offset from the start of that buffer.
use iohttpparser.Base.{ℕ, Bool, true, false, List, replicate}

-- `IHTP_MAX_HEADERS`, `IHTP_MAX_HEADER_LINE`, `IHTP_MAX_REQUEST_LINE` at their default values.
abbrev pub max_headers_limit : ℕ
max_headers_limit = 64

abbrev pub max_header_line : ℕ
max_header_line = 8192

abbrev pub max_request_line : ℕ
max_request_line = 8192

pub data Status : Type 0 where
  ok incomplete error error_too_long error_too_many_headers : Status

pub data Method : Type 0 where
  unknown get post put delete head options patch connect trace : Method

pub data HttpVersion : Type 0 where
  http_10 http_11 : HttpVersion

pub data ParserMode : Type 0 where
  mode_request mode_response mode_headers : ParserMode

pub data ParserPhase : Type 0 where
  phase_start_line phase_headers phase_done phase_error : ParserPhase

pub record ParserState : Type 0 where
  pub mode : ParserMode
  pub phase : ParserPhase
  pub cursor : ℕ

pub record Header : Type 0 where
  pub name : ℕ
  pub name_len : ℕ
  pub value : ℕ
  pub value_len : ℕ

pub data BodyMode : Type 0 where
  body_none body_fixed body_chunked body_eof : BodyMode

pub record Request : Type 0 where
  pub method : Method
  pub method_str : ℕ
  pub method_len : ℕ
  pub path : ℕ
  pub path_len : ℕ
  pub version : HttpVersion
  pub headers : List Header
  pub num_headers : ℕ
  pub body_mode : BodyMode
  pub content_length : ℕ
  pub keep_alive : Bool
  pub protocol_upgrade : Bool
  pub expects_continue : Bool
  pub has_trailer_fields : Bool

pub record Response : Type 0 where
  pub version : HttpVersion
  pub status_code : ℕ
  pub reason : ℕ
  pub reason_len : ℕ
  pub headers : List Header
  pub num_headers : ℕ
  pub body_mode : BodyMode
  pub content_length : ℕ
  pub keep_alive : Bool
  pub protocol_upgrade : Bool
  pub has_trailer_fields : Bool

pub record Policy : Type 0 where
  pub reject_obs_fold : Bool
  pub reject_bare_lf : Bool
  pub reject_te_cl : Bool
  pub allow_spaces_in_uri : Bool

abbrev pub policy_strict : Policy
policy_strict = record {
  reject_obs_fold = true;
  reject_bare_lf = true;
  reject_te_cl = true;
  allow_spaces_in_uri = false;
}

abbrev pub policy_lenient : Policy
policy_lenient = record {
  reject_obs_fold = false;
  reject_bare_lf = false;
  reject_te_cl = false;
  allow_spaces_in_uri = true;
}

-- The policies that name the two consumers.
abbrev pub policy_iohttp : Policy
policy_iohttp = policy_strict

abbrev pub policy_ioguard : Policy
policy_ioguard = policy_strict

-- The zeroed values that `memset` leaves.
abbrev pub zero_header : Header
zero_header = record { name = 0; name_len = 0; value = 0; value_len = 0 }

abbrev pub zero_request : Request
zero_request = record {
  method = unknown;
  method_str = 0;
  method_len = 0;
  path = 0;
  path_len = 0;
  version = http_10;
  headers = replicate max_headers_limit zero_header;
  num_headers = 0;
  body_mode = body_none;
  content_length = 0;
  keep_alive = false;
  protocol_upgrade = false;
  expects_continue = false;
  has_trailer_fields = false;
}

abbrev pub zero_response : Response
zero_response = record {
  version = http_10;
  status_code = 0;
  reason = 0;
  reason_len = 0;
  headers = replicate max_headers_limit zero_header;
  num_headers = 0;
  body_mode = body_none;
  content_length = 0;
  keep_alive = false;
  protocol_upgrade = false;
  has_trailer_fields = false;
}
