-- ===== src/Semantics/Version.antt =====
-- `ihtp_version` and `ihtp_version_num` of src/ihtp_semantics.c, with the numbers of
-- src/ihtp_internal.h.
use Prim.Native.Nat.{bit_or}
use Prim.Native.String.{String}
use iohttpparser.Base.{ℕ, ◌*◌, ◌^◌}

abbrev pub version_major : ℕ
version_major = 0

abbrev pub version_minor : ℕ
version_minor = 1

abbrev pub version_patch : ℕ
version_patch = 0

unfoldable pub version : String
version = "0.1.0"

unfoldable pub version_num : ℕ
version_num = bit_or (bit_or (version_major * 2 ^ 16) (version_minor * 2 ^ 8)) version_patch
