-- ===== src/Mcp/Json/Tests.antt =====
-- Bodies with and without repeated names.
use kite_rail.Prelude.{◌≡◌, refl, Option, some, List, []}
use kite_rail.Prelude.Text.{Text, codes, text_eq}
use kite_rail.Mcp.Json.{
  Value, Fields, string, number, leaf, array, object, no_items, item, no_fields, field, Token, ok,
  err, duplicate, insert, exists, more, member_name, fresh, end_object, end_array, decode_value,
  decode_object,
}
use kite_rail.Mcp.Json.Distinct.{flatten, distinct}
use kite_rail.Mcp.Json.Exact.{Decoded, decode_object-Decoded}

-- {"id": 7, "params": {"name": "x", "list": [{}]}}
abbrev pub params : Fields
params =
    field (codes "name") (leaf (string (codes "x")))
      (field (codes "list") (array (item (object no_fields) no_items)) no_fields)

abbrev pub call : Fields
call =
    field (codes "id") (leaf (number (codes "7")))
      (field (codes "params") (object params) no_fields)

-- {"id": 7, "id": 7}
abbrev twice : Fields
twice =
    field (codes "id") (leaf (number (codes "7")))
      (field (codes "id") (leaf (number (codes "7"))) no_fields)

-- A lexer that reads every body as this value.
abbrev reading : Value → Text → Option (List Token)
reading v body = some (flatten v)

call_accepted : decode_object (reading (object call)) [] ≡ ok call
unfolding decode_object decode_value flatten more insert exists text_eq member_name fresh end_object
    end_array
call_accepted = refl

twice_refused : decode_object (reading (object twice)) [] ≡ err (duplicate (codes "id"))
unfolding decode_object decode_value flatten more insert exists text_eq member_name fresh end_object
    end_array
twice_refused = refl

decode_object-Decoded_example :
    Decoded (distinct (object call)) (object call) (decode_object (reading (object call)) [])
decode_object-Decoded_example = decode_object-Decoded (reading (object call)) [] (object call) refl
