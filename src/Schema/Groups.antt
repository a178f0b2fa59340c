-- ===== src/Schema/Groups.antt =====
-- catalogue_schema.py: `parse_catalogue` and `parse_scenario_group`. `Path(source).name` is a parameter.
use flatpak_blackbox_tests.Base.{
  ℕ, ◌+◌, String, Bool, true, false, ◌&&◌, ◌||◌, Option, none, some, List, [], ◌∷◌, ◌==◌,
  if◌then◌else◌, contains, add, leb, eqb, after_prefix, ends_with, all_chars, char_count,
}
use flatpak_blackbox_tests.Base.Dict.{Dict, insert, lookup, set_default}
use flatpak_blackbox_tests.Json.Value.{
  Value, text, list, dict, nil, FieldPath, field, item, unknown_command, bad_client_entry,
  bad_client_source, invalid, expected_string, Result, ok, err, ◌>>=◌, ◌>>◌, guard, entries, items,
}
use flatpak_blackbox_tests.Json.Validate.{object_map, array, string, required}
use flatpak_blackbox_tests.Schema.Index.{indexed}
use flatpak_blackbox_tests.Schema.Behaviors.{typed, item_id, with_behaviors}
use flatpak_blackbox_tests.Schema.Shapes.Catalogue.{
  catalogue as catalogue_shape, scenario_group as group_shape,
}

-- the list of a field, and a text of a field
abbrev pub items_at : Dict Value → String → FieldPath → Result (List Value)
items_at d key path = do raw ← required d key path; array raw (field path key)

abbrev pub text_at : Dict Value → String → FieldPath → Bool → Result String
text_at d key path nonempty = do raw ← required d key path; string raw (field path key) nonempty

-- a field that its annotation says is a `str`: the text as it is
abbrev pub as_text : Value → FieldPath → Result String
as_text (text s) path = ok s
as_text _ path = err (invalid path (expected_string false))

abbrev pub typed_text : Dict Value → String → FieldPath → Result String
typed_text d key path = do raw ← required d key path; as_text raw (field path key)

-- a field that its annotation says is a `list[str]`
abbrev pub as_texts : List Value → FieldPath → Result (List String)
as_texts [] path = ok []
as_texts (v ∷ vs) path = do first ← as_text v path; rest ← as_texts vs path; ok (first ∷ rest)

unfoldable pub surface_items : List Value → FieldPath → ℕ → Result (List Value)
surface_items [] path index = ok []
surface_items (v ∷ vs) path index = do
  raw ← object_map v (item path index)
  rest ← surface_items vs path (index + 1)
  ok (dict (entries (set_default "sources" (list nil) raw)) ∷ rest)

-- the names of the surfaces of kind "cli-command"
unfoldable pub command_names : List Value → FieldPath → ℕ → Result (List String)
command_names [] path index = ok []
command_names (v ∷ vs) path index = do
  surface ← object_map v (item path index)
  name ← typed_text surface "name" (item path index)
  kind ← typed_text surface "kind" (item path index)
  rest ← command_names vs path (index + 1)
  ok (if kind == "cli-command" then add name rest else rest)

abbrev pub check_command : List String → Option Value → FieldPath → Result (Unit {0})
check_command commands (some (text s)) path =
    guard (contains s commands || s == "global") (invalid path unknown_command)
check_command commands _ path = ok tt

unfoldable pub check_surfaces : List String → List Value → FieldPath → ℕ → Result (Unit {0})
check_surfaces commands [] path index = ok tt
check_surfaces commands (v ∷ vs) path index = do
  surface ← object_map v (item path index)
  name ← text_at surface "name" (item path index) true
  check_command commands (lookup "command" surface) (field (item path index) "command")
  check_surfaces commands vs path (index + 1)

unfoldable pub parse_catalogue : Value → FieldPath → Result (Dict Value)
unfolding surface_items command_names check_surfaces
parse_catalogue value path = do
  raw ← object_map value path
  vs ← items_at raw "surfaces" path
  filled ← surface_items vs (field path "surfaces") 0
  result ← typed (insert "surfaces" (list (items filled)) raw) catalogue_shape path
  surfaces ← items_at result "surfaces" path
  known ← indexed item_id "surface" surfaces
  commands ← command_names surfaces (field path "surfaces") 0
  check_surfaces commands surfaces (field path "surfaces") 0
  ok result

abbrev pub is_word : ℕ → Bool
is_word c = leb b'a' c && leb c b'z' || (leb b'0' c && leb c b'9' || eqb c b'_')

-- `re.fullmatch(r"blackbox_[a-z0-9_]+_main", entry)`: five characters of the rest are `_main`
unfoldable pub is_client_entry : String → Bool
is_client_entry entry = elim (after_prefix "blackbox_" entry) [
  | none ↦ false
  | some rest ↦ ends_with rest "_main" && (leb 6 (char_count rest) && all_chars is_word rest)
]

module _ (name_of : String → String) where
  unfoldable pub is_client_source : String → Bool
  is_client_source source = name_of source == source && ends_with source ".c"

  abbrev pub check_client : Option Value → FieldPath → Result (Unit {0})
  check_client none path = ok tt
  check_client (some value) path = do
    client ← object_map value path
    entry ← typed_text client "entry" path
    source ← typed_text client "source" path
    guard (is_client_entry entry) (invalid (field path "entry") bad_client_entry)
    guard (is_client_source source) (invalid (field path "source") bad_client_source)

  unfoldable pub parse_scenario_group : (String → Bool) → Value → FieldPath → Result (Dict Value)
  unfolding is_client_entry is_client_source
  parse_scenario_group is_identifier value path = do
    raw ← object_map value path
    data' ← with_behaviors is_identifier raw path
    result ← typed data' group_shape path
    behaviors ← items_at result "behaviors" path
    known ← indexed item_id "behavior" behaviors
    check_client (lookup "client" result) (field path "client")
    ok result
