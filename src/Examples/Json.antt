-- ===== src/Examples/Json.antt =====
-- Small JSON values, checked against small declared types.
use flatpak_blackbox_tests.Base.{
  String, true, Option, none, some, [], ◌∷◌, is_unique, ◌==◌, if◌then◌else◌, ◌≡◌, refl, ◌↔◌,
}
use flatpak_blackbox_tests.Base.Int.{pos}
use flatpak_blackbox_tests.Base.Dict.{Dict, keys}
use flatpak_blackbox_tests.Json.Value.{
  Value, int, text, list, tuple, dict, nil, cons, end, entry, name, root, Result, ok,
}
use flatpak_blackbox_tests.Json.Validate.{json_value, schema_one, object_map, integer, array}
use flatpak_blackbox_tests.Json.Normal.{is_plain, to_json, json_value_iff, json_value_again}
use flatpak_blackbox_tests.Json.Decode.{
  Document, int_literal, object_of, member, no_member, unique_object, decode_json,
}
use flatpak_blackbox_tests.Json.Decode.Laws.{unique_object_iff}
use flatpak_blackbox_tests.Json.Decode.Reading.{decode_json_iff, distinct_keys, meaning}
use flatpak_blackbox_tests.Typed.{validate, parse_typed, check_required, check_items}
use flatpak_blackbox_tests.Typed.Forms.{
  Annotation, typed_dict, declare, no_fields, int_type, list_of, str,
}
use flatpak_blackbox_tests.Typed.Conforms.{Conforms}
use flatpak_blackbox_tests.Typed.Laws.{validate_iff, parse_typed_iff, parse_typed_again}
use flatpak_blackbox_tests.Schema.Index.{indexed, members, IsKeyed, indexed_iff}

-- `{"schema": 1, "names": ("a",)}`, and the same with a list
abbrev given : Value
given =
    dict
      (entry (name "schema") (int (pos 1)) (entry (name "names") (tuple (cons (text "a") nil)) end))

abbrev normal : Value
normal =
    dict
      (entry (name "schema") (int (pos 1)) (entry (name "names") (list (cons (text "a") nil)) end))

abbrev schema : Annotation
schema = typed_dict (declare "schema" true int_type (declare "names" true (list_of str) no_fields))

json_value_iff_example :
    (json_value given (root "x") ≡ ok normal) ↔ ((is_plain given ≡ true) × (normal ≡ to_json given))
json_value_iff_example = json_value_iff given normal (root "x")

normalized : json_value given (root "x") ≡ ok normal
unfolding json_value
normalized = refl

json_value_again_example : json_value normal (root "y") ≡ ok normal
json_value_again_example = json_value_again given normal (root "x") (root "y") normalized

validate_iff_example : (validate schema normal (root "x") ≡ ok tt) ↔ Conforms schema normal
validate_iff_example = validate_iff schema normal (root "x")

parse_typed_iff_example :
    (parse_typed given schema (root "x") ≡ ok normal)
    ↔ ((is_plain given ≡ true) × (normal ≡ to_json given) × Conforms schema normal)
parse_typed_iff_example = parse_typed_iff given normal schema (root "x")

parsed : parse_typed given schema (root "x") ≡ ok normal
unfolding parse_typed json_value validate object_map check_required integer array check_items
    schema_one
parsed = refl

parse_typed_again_example : parse_typed normal schema (root "y") ≡ ok normal
parse_typed_again_example = parse_typed_again given normal schema (root "x") (root "y") parsed

abbrev pairs : Dict Value
pairs = ("a", int (pos 1)) ∷ ("b", int (pos 2)) ∷ []

unique_object_iff_example :
    (unique_object pairs ≡ ok pairs) ↔ ((is_unique (keys pairs) ≡ true) × (pairs ≡ pairs))
unique_object_iff_example = unique_object_iff pairs pairs

-- a scanner that knows one text
abbrev loads : String → Option Document
loads source =
    if source == "{\"a\": 1}"
    then some (object_of (member "a" (int_literal (pos 1)) no_member))
    else none

abbrev decoded : Value
decoded = dict (entry (name "a") (int (pos 1)) end)

decode_json_iff_example : (decode_json loads "{\"a\": 1}" (root "x") ≡ ok decoded) ↔ (
    (e : Document) × (loads "{\"a\": 1}" ≡ some e)
    × (distinct_keys e ≡ true)
    × (is_plain decoded ≡ true)
    × (decoded ≡ meaning e))
decode_json_iff_example = decode_json_iff loads "{\"a\": 1}" (root "x") decoded

abbrev named : String → Result Value
named s = ok (text s)

abbrev keyed : Dict String
keyed = ("a", "a") ∷ ("b", "b") ∷ []

indexed_iff_example : (indexed named "case" ("a" ∷ "b" ∷ []) ≡ ok keyed) ↔ (
    (members named "case" keyed ≡ "a" ∷ "b" ∷ [])
    × IsKeyed named "case" keyed
    × (is_unique (keys keyed) ≡ true))
indexed_iff_example = indexed_iff named "case" ("a" ∷ "b" ∷ []) keyed
