-- ===== src/Typed.antt =====
-- typed_json.py: checking a value against a declared type.
pub mod Forms
pub mod Conforms
pub mod Shape
pub mod Checks
pub mod Laws
use Forms.{
  Annotation, json, str, bool_type, int_type, float_type, none_type, typed_dict, literal, list_of,
  dict_of, union, unknown, Fields, no_fields, declare, Alternatives, none_of, either, declared,
}
use flatpak_blackbox_tests.Base.{
  ℕ, ◌+◌, String, Bool, true, false, ◌&&◌, ◌||◌, Option, none, some, List, [], ◌∷◌, if◌then◌else◌,
  contains, ◌==◌,
}
use flatpak_blackbox_tests.Base.Dict.{Dict, lookup, has}
use flatpak_blackbox_tests.Json.Value.{
  Value, null, int, float, text, FieldPath, field, item, key_of, Reason, expected_string,
  expected_number, expected_null, expected_literal, no_alternative, unsupported_type, Error,
  invalid, Result, ok, err, ◌>>=◌, ◌>>◌,
}
use flatpak_blackbox_tests.Json.Validate.{
  object_map, array, boolean, integer, required, schema_one, json_value,
}

abbrev pub ignore {ℓ} : {A : Type ℓ} → Result A → Result (Unit {0})
ignore (ok a) = ok tt
ignore (err e) = err e

-- the loop over `__required_keys__`
unfoldable pub check_required : Fields → Dict Value → FieldPath → Result (Unit {0})
unfolding required
check_required no_fields d path = ok tt
check_required (declare k true a fs) d path = do
  ignore (required d k path)
  check_required fs d path
check_required (declare k false a fs) d path = check_required fs d path

abbrev pub check_schema : Bool → Dict Value → FieldPath → Result (Unit {0})
check_schema true d path = schema_one d path
check_schema false d path = ok tt

abbrev pub check_str : Value → FieldPath → Result (Unit {0})
check_str (text s) path = ok tt
check_str _ path = err (invalid path (expected_string false))

abbrev pub check_number : Value → FieldPath → Result (Unit {0})
check_number (int n) path = ok tt
check_number (float x) path = ok tt
check_number _ path = err (invalid path expected_number)

abbrev pub check_null : Value → FieldPath → Result (Unit {0})
check_null null path = ok tt
check_null _ path = err (invalid path expected_null)

abbrev pub check_literal : List String → Value → FieldPath → Result (Unit {0})
check_literal choices (text s) path =
    if contains s choices then ok tt else err (invalid path expected_literal)
check_literal choices _ path = err (invalid path expected_literal)

-- the loops over an array and over an object, given the check of one element
abbrev pub Check : Type 0
Check = Value → FieldPath → Result (Unit {0})

unfoldable pub check_items : Check → List Value → FieldPath → ℕ → Result (Unit {0})
check_items check [] path index = ok tt
check_items check (v ∷ vs) path index = do
  check v (item path index)
  check_items check vs path (index + 1)

unfoldable pub check_entries : Check → Check → Dict Value → FieldPath → Result (Unit {0})
check_entries check_key check [] path = ok tt
check_entries check_key check ((k, v) ∷ d) path = do
  check_key (text k) (key_of path)
  check v (field path k)
  check_entries check_key check d path

-- `if key in data: _validate(data[key], ...)`
abbrev pub check_present : Check → Option Value → FieldPath → Result (Unit {0})
check_present check none path = ok tt
check_present check (some v) path = check v path

-- An alternative that accepts ends the search.
abbrev pub or_else : Result (Unit {0}) → Result (Unit {0}) → Result (Unit {0})
or_else (ok u) r = ok tt
or_else (err e) r = r

unfoldable mutual
  pub validate : Annotation → Value → FieldPath → Result (Unit {0})
  validate json v path = ignore (json_value v path)
  validate str v path = check_str v path
  validate bool_type v path = ignore (boolean v path)
  validate int_type v path = ignore (integer v path none)
  validate float_type v path = check_number v path
  validate none_type v path = check_null v path
  validate (typed_dict fs) v path = do
    d ← object_map v path
    check_required fs d path
    check_fields fs d path
    check_schema (declared "schema" fs && has "schema" d) d path
  validate (literal choices) v path = check_literal choices v path
  validate (list_of a) v path = do vs ← array v path; check_items (validate a) vs path 0
  validate (dict_of k a) v path = do
    d ← object_map v path
    check_entries (validate k) (validate a) d path
  validate (union alternatives) v path = try_each alternatives v path
  validate unknown v path = err (invalid path unsupported_type)

  pub check_fields : Fields → Dict Value → FieldPath → Result (Unit {0})
  check_fields no_fields d path = ok tt
  check_fields (declare k req a fs) d path = do
    check_present (validate a) (lookup k d) (field path k)
    check_fields fs d path

  pub try_each : Alternatives → Value → FieldPath → Result (Unit {0})
  try_each none_of v path = err (invalid path no_alternative)
  try_each (either a rest) v path = or_else (validate a v path) (try_each rest v path)

unfoldable pub parse_typed : Value → Annotation → FieldPath → Result Value
parse_typed value schema path = do
  normalized ← json_value value path
  validate schema normalized path
  ok normalized
