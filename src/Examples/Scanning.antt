-- ===== src/Examples/Scanning.antt =====
-- The scanner of src/ihtp_scanner_scalar.c with a concrete `_mm_cmpestri`.
use iohttpparser.Base.{◌≡◌, arith, true, Bytes, codes}
use iohttpparser.Chars.{is_token_char}
use iohttpparser.Scanner.{select_vtable, scan_delims}
use iohttpparser.Scanner.Backends.{AllBytes, IsFirstMatch, c_string, scan_delims-IsFirstMatch}
use iohttpparser.Scanner.Dispatch.{CmpestriLaw, select_vtable-IsFirstMatch}
use iohttpparser.Scanner.Tokens.{all_tchar, is_tchar, is_token_char-is_tchar}

scan_delims-CmpestriLaw : CmpestriLaw scan_delims
scan_delims-CmpestriLaw needle haystack pos small size = scan_delims-IsFirstMatch needle haystack

abbrev text : Bytes
text = codes "GET /i"

abbrev spaces : Bytes
spaces = codes " /"

text-AllBytes : AllBytes text
text-AllBytes =
    (omega arith, (omega arith, (omega arith, (omega arith, (omega arith, (omega arith, tt))))))

select_vtable-IsFirstMatch_example :
    IsFirstMatch
      (c_string spaces)
      text
      ((select_vtable scan_delims (record { sse42 = true; avx2 = true }) 1).find_char text spaces)
    × ((select_vtable scan_delims (record { sse42 = true; avx2 = true }) 1).is_token text
        ≡ all_tchar text)
select_vtable-IsFirstMatch_example =
    select_vtable-IsFirstMatch scan_delims scan_delims-CmpestriLaw
      (record { sse42 = true; avx2 = true }) 1 text spaces text-AllBytes
      (omega arith, (omega arith, tt))

is_token_char-is_tchar_example : is_token_char b'~' ≡ is_tchar b'~'
is_token_char-is_tchar_example = is_token_char-is_tchar b'~' (omega arith)
