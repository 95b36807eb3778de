-- ===== src/Parser/Method.antt =====
-- `ihtp_method_from_str` and `ihtp_method_to_str` of src/ihtp_parser.c.
use Prim.Native.String.{String}
use iohttpparser.Base.{
  ◌≡◌, ◌≢◌, ◌↔◌, refl, arith, Bytes, codes, length, bytes_eq, bytes_eq_iff, ◌==◌, if◌then◌else◌,
}
use iohttpparser.Types.{
  Method, unknown, get, post, put, delete, head, options, patch, connect, trace,
}

-- The cases of the switch on the length; `memcmp` compares all of the `length method` bytes.
unfoldable pub method_from_str : Bytes → Method
method_from_str m =
    if length m == 3
    then if bytes_eq m (codes "GET") then get else if bytes_eq m (codes "PUT") then put else unknown
    else if length m == 4
    then if bytes_eq m (codes "POST")
      then post
      else if bytes_eq m (codes "HEAD")
      then head
      else unknown
    else if length m == 5
    then if bytes_eq m (codes "PATCH")
      then patch
      else if bytes_eq m (codes "TRACE")
      then trace
      else unknown
    else if length m == 6
    then if bytes_eq m (codes "DELETE") then delete else unknown
    else if length m == 7
    then if bytes_eq m (codes "OPTIONS")
      then options
      else if bytes_eq m (codes "CONNECT")
      then connect
      else unknown
    else unknown

unfoldable pub method_to_str : Method → String
method_to_str get = "GET"
method_to_str post = "POST"
method_to_str put = "PUT"
method_to_str delete = "DELETE"
method_to_str head = "HEAD"
method_to_str options = "OPTIONS"
method_to_str patch = "PATCH"
method_to_str connect = "CONNECT"
method_to_str trace = "TRACE"
method_to_str unknown = "UNKNOWN"

-- Every recognised method and no other text: a text is read as one of the nine methods exactly when
-- it is the name that `ihtp_method_to_str` prints for it.
pub method_from_str-method_to_str :
    (text : Bytes) (m : Method)
    → m ≢ unknown
    → (method_from_str text ≡ m) ↔ (text ≡ codes (method_to_str m))
unfolding method_from_str method_to_str
method_from_str-method_to_str text get known = grind (arith, bytes_eq_iff)
method_from_str-method_to_str text post known = grind (arith, bytes_eq_iff)
method_from_str-method_to_str text put known = grind (arith, bytes_eq_iff)
method_from_str-method_to_str text delete known = grind (arith, bytes_eq_iff)
method_from_str-method_to_str text head known = grind (arith, bytes_eq_iff)
method_from_str-method_to_str text options known = grind (arith, bytes_eq_iff)
method_from_str-method_to_str text patch known = grind (arith, bytes_eq_iff)
method_from_str-method_to_str text connect known = grind (arith, bytes_eq_iff)
method_from_str-method_to_str text trace known = grind (arith, bytes_eq_iff)
method_from_str-method_to_str text unknown known = absurd (known refl)
