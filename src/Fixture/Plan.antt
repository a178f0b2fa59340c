-- ===== src/Fixture/Plan.antt =====
-- fixture_manifest.py: what its parsers share. Each fills a result field by field, some fields only
-- if the data has them, and refuses data with a field that the result lacks (`_known`). A parser is
-- here the list of these steps, in the source's order; its result is a dictionary, like the source's.
pub mod Laws
use flatpak_blackbox_tests.Base.{
  ℕ, ◌+◌, String, Bool, true, false, Option, none, some, List, [], ◌∷◌, ◌++◌, if◌then◌else◌,
}
use flatpak_blackbox_tests.Base.Int.{pos}
use flatpak_blackbox_tests.Base.Dict.{Dict, has}
use flatpak_blackbox_tests.Json.Value.{
  Value, bool, int, text, list, dict, FieldPath, field, item, unknown_field, invalid, Result, ok,
  err, ◌>>=◌, ◌>>◌, entries, items,
}
use flatpak_blackbox_tests.Json.Validate.{
  object_map, array, string, boolean, integer, strings, string_map, required,
}

abbrev pub Reader : Type 0
Reader = Value → FieldPath → Result Value

pub data Read : Type 0 where
  -- `result[key] = reader(required(data, key, path), f"{path}.{key}")`
  take : String → Reader → Read
  -- `required(data, key, path)`, for the exception only
  demand : String → Read

pub data Step : Type 0 where
  always : Read → Step
  -- `if key in data: ...`
  given : String → List Read → Step

-- The readers: the value that each returns stands in the result.
abbrev pub as_text : Reader
as_text v path = do s ← string v path false; ok (text s)

abbrev pub as_filled : Reader
as_filled v path = do s ← string v path true; ok (text s)

abbrev pub as_size : Reader
as_size v path = do n ← integer v path (some (pos 0)); ok (int n)

abbrev pub as_flag : Reader
as_flag v path = do b ← boolean v path; ok (bool b)

abbrev pub texts_value : List String → List Value
texts_value [] = []
texts_value (s ∷ ss) = text s ∷ texts_value ss

abbrev pub as_texts : Reader
as_texts v path = do ss ← strings v path false; ok (list (items (texts_value ss)))

abbrev pub text_dict : Dict String → Dict Value
text_dict [] = []
text_dict ((k, s) ∷ d) = (k, text s) ∷ text_dict d

abbrev pub as_map : Bool → Reader
as_map nonempty v path = do d ← string_map v path nonempty; ok (dict (entries (text_dict d)))

-- `{key: reader(item, f"{path}.{key}") for key, item in data.items()}`
unfoldable pub read_each : Reader → Dict Value → FieldPath → Result (Dict Value)
read_each reader [] path = ok []
read_each reader ((k, v) ∷ d) path = do
  w ← reader v (field path k)
  rest ← read_each reader d path
  ok ((k, w) ∷ rest)

abbrev pub as_dict : Reader → Reader
as_dict reader v path = do
  d ← object_map v path
  result ← read_each reader d path
  ok (dict (entries result))

-- `[reader(item, f"{path}[{index}]") for index, item in enumerate(items)]`
unfoldable pub read_items : Reader → List Value → FieldPath → ℕ → Result (List Value)
read_items reader [] path index = ok []
read_items reader (v ∷ vs) path index = do
  w ← reader v (item path index)
  rest ← read_items reader vs path (index + 1)
  ok (w ∷ rest)

abbrev pub as_list : Reader → Reader
as_list reader v path = do
  vs ← array v path
  result ← read_items reader vs path 0
  ok (list (items result))

-- `_text`, `_size` and `_flag`, on a field of the result
abbrev pub text_field : String → Step
text_field key = always (take key as_text)

abbrev pub text_fields : List String → List Step
text_fields [] = []
text_fields (key ∷ keys) = text_field key ∷ text_fields keys

abbrev pub size_field : String → Step
size_field key = always (take key as_size)

abbrev pub flag_field : String → Step
flag_field key = always (take key as_flag)

abbrev pub optional : String → Reader → Step
optional key reader = given key (take key reader ∷ [])

unfoldable pub read_one : Read → Dict Value → FieldPath → Result (Dict Value)
read_one (take key reader) data' path = do
  v ← required data' key path
  w ← reader v (field path key)
  ok ((key, w) ∷ [])
read_one (demand key) data' path = do v ← required data' key path; ok []

unfoldable pub read_all : List Read → Dict Value → FieldPath → Result (Dict Value)
unfolding read_one
read_all [] data' path = ok []
read_all (r ∷ rs) data' path = do
  first ← read_one r data' path
  rest ← read_all rs data' path
  ok (first ++ rest)

unfoldable pub read_step : Step → Dict Value → FieldPath → Result (Dict Value)
unfolding read_one read_all
read_step (always r) data' path = read_one r data' path
read_step (given key rs) data' path = if has key data' then read_all rs data' path else ok []

unfoldable pub read_steps : List Step → Dict Value → FieldPath → Result (Dict Value)
unfolding read_step
read_steps [] data' path = ok []
read_steps (s ∷ ss) data' path = do
  first ← read_step s data' path
  rest ← read_steps ss data' path
  ok (first ++ rest)

-- `_known`. The source takes the unknown fields in the order of a set.
unfoldable pub known : Dict Value → Dict Value → FieldPath → Result (Unit {0})
known [] result path = ok tt
known ((k, v) ∷ data') result path =
    let rest = known data' result path in
    if has k result then rest else err (invalid (field path k) unknown_field)

-- A parser with these steps.
unfoldable pub group : List Step → Value → FieldPath → Result (Dict Value)
unfolding read_steps known
group steps value path = do
  data' ← object_map value path
  result ← read_steps steps data' path
  known data' result path
  ok result

abbrev pub as_group : (Value → FieldPath → Result (Dict Value)) → Reader
as_group parser v path = do d ← parser v path; ok (dict (entries d))
