-- ===== src/Json/Decode.antt =====
-- json_validation.py: `_unique_object`, `decode_json` and `load_json`. `json.loads` is a parameter:
-- it scans a text into a document, or raises `JSONDecodeError`, and calls the hook on the pairs of
-- each object, an inner object before the one that holds it.
pub mod Laws
pub mod Reading
use flatpak_blackbox_tests.Base.{
  ℕ, String, Bool, true, false, ◌&&◌, Option, none, some, List, [], ◌∷◌, if◌then◌else◌, is_unique,
}
use flatpak_blackbox_tests.Base.Int.{ℤ}
use flatpak_blackbox_tests.Base.Dict.{Dict, keys, has, insert}
use flatpak_blackbox_tests.Json.Value.{
  Float, Value, null, bool, int, float, text, list, dict, Items, nil, cons, FieldPath, root, Reason,
  duplicate_key, malformed_json, Error, invalid, within, Result, ok, err, ◌>>=◌, ◌>>◌, entries,
}
use flatpak_blackbox_tests.Json.Validate.{json_value}

-- What stands in a JSON text; an object is its pairs in order, with any repetition.
mutual
  pub data Document : Type 0 where
    null_literal : Document
    bool_literal : Bool → Document
    int_literal : ℤ → Document
    float_literal : Float → Document
    text_literal : String → Document
    array_of : Elements → Document
    object_of : Members → Document

  pub data Elements : Type 0 where
    no_element : Elements
    element : Document → Elements → Elements

  pub data Members : Type 0 where
    no_member : Members
    member : String → Document → Members → Members

unfoldable pub unique_from : Dict Value → List (String × Value) → Result (Dict Value)
unique_from result [] = ok result
unique_from result ((key, value) ∷ pairs) =
    let rest = unique_from (insert key value result) pairs in
    if has key result then err (invalid (root "") (duplicate_key key)) else rest

unfoldable pub unique_object : List (String × Value) → Result (Dict Value)
unfolding unique_from
unique_object pairs = unique_from [] pairs

unfoldable mutual
  pub scanned : Document → Result Value
  scanned null_literal = ok null
  scanned (bool_literal b) = ok (bool b)
  scanned (int_literal n) = ok (int n)
  scanned (float_literal x) = ok (float x)
  scanned (text_literal s) = ok (text s)
  scanned (array_of es) = do vs ← scanned_elements es; ok (list vs)
  scanned (object_of ms) = do
    pairs ← scanned_members ms
    result ← unique_object pairs
    ok (dict (entries result))

  pub scanned_elements : Elements → Result Items
  scanned_elements no_element = ok nil
  scanned_elements (element e es) = do v ← scanned e; vs ← scanned_elements es; ok (cons v vs)

  pub scanned_members : Members → Result (List (String × Value))
  scanned_members no_member = ok []
  scanned_members (member k e ms) = do v ← scanned e; rest ← scanned_members ms; ok ((k, v) ∷ rest)

abbrev located {ℓ} : {A : Type ℓ} → FieldPath → Result A → Result A
located path (ok a) = ok a
located path (err e) = err (within path e)

abbrev scan : Option Document → Result Value
scan none = err (invalid (root "") malformed_json)
scan (some document) = scanned document

module _ (loads : String → Option Document) where
  unfoldable pub decode_json : String → FieldPath → Result Value
  decode_json source path = located path (do raw ← scan (loads source); json_value raw path)

  -- `path.read_text()` is the second parameter.
  unfoldable pub load_json : (String → Result String) → String → Result Value
  unfolding decode_json
  load_json read_text path = do source ← read_text path; decode_json source (root path)
