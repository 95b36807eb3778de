-- ===== src/Examples/RoundTrips.antt =====
-- Printed request heads, read back by src/ihtp_parser.c.
use iohttpparser.Base.{◌+◌, ◌≡◌, refl, arith, some, [], ◌∷◌, codes, inl}
use iohttpparser.Chars
use iohttpparser.Parser.Headers.RoundTrip.{print_fields, AllFields, after, parse_header_block-print}
use iohttpparser.Parser.Headers.{parse_header_block}
use iohttpparser.Parser.Line.Print.{Field, IsField}
use iohttpparser.Parser.Print.{print_line_end}
use iohttpparser.Parser.Stateful.RoundTrip.{Head}
use iohttpparser.Parser.Text
use iohttpparser.Types.{ok, http_11, zero_header, policy_strict}

abbrev host : Field
host = record { name = codes "Host"; ows = codes " "; value = codes "x y"; tail = codes "\t " }

host-IsField : IsField host
unfolding iohttpparser.Chars.is_token_char iohttpparser.Chars.is_lws
    iohttpparser.Parser.Text.field_text_is_valid
host-IsField = record {
  token = (refl, (refl, (refl, (refl, tt))));
  some_name = omega arith;
  white = (refl, tt);
  tail_white = (refl, (refl, tt));
  tail_behind = inl (omega arith);
  value_start = refl;
  value_end = refl;
  value_text = refl;
  one_line = ((cc), ((cc), ((cc), tt)));
}

one_field-AllFields : AllFields (host ∷ [])
one_field-AllFields = (host-IsField, omega arith, tt)

abbrev get_head : Head
get_head = record {
  method = codes "GET";
  target = codes "/a";
  version = http_11;
  fields = host ∷ [];
}

parse_header_block-print_example :
    let b = after 9 (record { headers = zero_header ∷ []; count = 0; pos = 0 }) (host ∷ []) in
    parse_header_block 9
      (print_fields (host ∷ []) (print_line_end (codes "z")))
      (zero_header ∷ [])
      0
      1
      policy_strict
    ≡ some (record {
      status = ok;
      headers = b.headers;
      num_headers = some b.count;
      block_end = some (b.pos + 2);
    })
parse_header_block-print_example =
    parse_header_block-print 9 (host ∷ []) (codes "z") (zero_header ∷ []) 0 1 policy_strict
      one_field-AllFields (omega arith)
