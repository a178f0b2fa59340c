-- ===== src/Json/Validate.antt =====
-- json_validation.py: `object_map` to `schema_one`, and `json_value`.
use flatpak_blackbox_tests.Base.{
  ℕ, ◌+◌, String, Bool, true, false, ◌&&◌, ◌||◌, Option, none, some, List, [], ◌∷◌, eqb,
  if◌then◌else◌, has_char, is_empty,
}
use flatpak_blackbox_tests.Base.Int.{ℤ, pos, negsuc, ltb_ℤ}
use flatpak_blackbox_tests.Base.Dict.{Dict, lookup}
use flatpak_blackbox_tests.Json.Value.{
  Float, finite, name, opaque, Value, null, bool, int, float, text, list, tuple, dict, other, Items,
  nil, cons, Entries, end, entry, FieldPath, field, item, expected_object, expected_string_keys,
  expected_array, expected_string, expected_boolean, expected_integer, missing_field,
  unsupported_schema, non_finite, invalid, Result, ok, err, ◌>>=◌, ◌>>◌, guard, values,
}

-- the loop of `object_map`
unfoldable pub text_keys : Entries → FieldPath → Result (Dict Value)
text_keys end path = ok []
text_keys (entry (name key) value rest) path = do
  result ← text_keys rest path
  ok ((key, value) ∷ result)
text_keys (entry opaque value rest) path = err (invalid path expected_string_keys)

unfoldable pub object_map : Value → FieldPath → Result (Dict Value)
unfolding text_keys
object_map (dict es) path = text_keys es path
object_map _ path = err (invalid path expected_object)

unfoldable pub array : Value → FieldPath → Result (List Value)
array (list vs) path = ok (values vs)
array _ path = err (invalid path expected_array)

unfoldable pub string : Value → FieldPath → Bool → Result String
string (text s) path nonempty =
    if has_char 0 s || (nonempty && is_empty s)
    then err (invalid path (expected_string nonempty))
    else ok s
string _ path nonempty = err (invalid path (expected_string nonempty))

unfoldable pub boolean : Value → FieldPath → Result Bool
boolean (bool b) path = ok b
boolean _ path = err (invalid path expected_boolean)

abbrev pub below : ℤ → Option ℤ → Bool
below n none = false
below n (some minimum) = ltb_ℤ n minimum

-- `type(value) is not int` refuses `True` and `False` too.
unfoldable pub integer : Value → FieldPath → Option ℤ → Result ℤ
integer (int n) path minimum =
    if below n minimum then err (invalid path (expected_integer minimum)) else ok n
integer _ path minimum = err (invalid path (expected_integer minimum))

unfoldable pub string_items : List Value → FieldPath → ℕ → Bool → Result (List String)
unfolding string
string_items [] path index nonempty = ok []
string_items (v ∷ vs) path index nonempty = do
  s ← string v (item path index) nonempty
  rest ← string_items vs path (index + 1) nonempty
  ok (s ∷ rest)

unfoldable pub strings : Value → FieldPath → Bool → Result (List String)
unfolding array string_items
strings value path nonempty = do vs ← array value path; string_items vs path 0 nonempty

unfoldable pub string_entries : Dict Value → FieldPath → Bool → Result (Dict String)
unfolding string
string_entries [] path nonempty = ok []
string_entries ((key, v) ∷ d) path nonempty = do
  s ← string v (field path key) nonempty
  rest ← string_entries d path nonempty
  ok ((key, s) ∷ rest)

unfoldable pub string_map : Value → FieldPath → Bool → Result (Dict String)
unfolding object_map string_entries
string_map value path nonempty = do d ← object_map value path; string_entries d path nonempty

unfoldable pub required : Dict Value → String → FieldPath → Result Value
required data' key path = elim (lookup key data') [
  | none ↦ err (invalid (field path key) missing_field)
  | some v ↦ ok v
]

abbrev pub is_one : ℤ → Bool
is_one (pos n) = eqb n 1
is_one (negsuc n) = false

unfoldable pub schema_one : Dict Value → FieldPath → Result (Unit {0})
unfolding required integer
schema_one data' path = do
  value ← required data' "schema" path
  n ← integer value (field path "schema") none
  guard (is_one n) (invalid (field path "schema") unsupported_schema)

abbrev pub is_finite : Float → Bool
is_finite (finite negative significand exponent) = true
is_finite _ = false

abbrev pub keys_are_text : Entries → Bool
keys_are_text end = true
keys_are_text (entry (name key) value rest) = keys_are_text rest
keys_are_text (entry opaque value rest) = false

-- `json_value` tests all keys of a dictionary, by `object_map`, before it enters any value.
unfoldable mutual
  pub json_value : Value → FieldPath → Result Value
  json_value null path = ok null
  json_value (bool b) path = ok (bool b)
  json_value (int n) path = ok (int n)
  json_value (float x) path = if is_finite x then ok (float x) else err (invalid path non_finite)
  json_value (text s) path = ok (text s)
  json_value (list vs) path = do ws ← json_items vs path 0; ok (list ws)
  json_value (tuple vs) path = do ws ← json_items vs path 0; ok (list ws)
  json_value (dict es) path = do
    guard (keys_are_text es) (invalid path expected_string_keys)
    fs ← json_entries es path
    ok (dict fs)
  json_value other path = err (invalid path expected_object)

  pub json_items : Items → FieldPath → ℕ → Result Items
  json_items nil path index = ok nil
  json_items (cons v vs) path index = do
    w ← json_value v (item path index)
    ws ← json_items vs path (index + 1)
    ok (cons w ws)

  pub json_entries : Entries → FieldPath → Result Entries
  json_entries end path = ok end
  json_entries (entry (name key) v rest) path = do
    w ← json_value v (field path key)
    ws ← json_entries rest path
    ok (entry (name key) w ws)
  json_entries (entry opaque v rest) path = err (invalid path expected_string_keys)
