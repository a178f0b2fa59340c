-- ===== src/Schema/Shards.antt =====
-- catalogue_schema.py: `load_requirements`, which joins an index and its shards. Reading a file is a parameter, and so
-- is what `pathlib` says of an include.
pub mod Laws
use flatpak_blackbox_tests.Base.{
  String, Bool, true, false, not, ◌&&◌, ◌||◌, Option, none, some, List, [], ◌∷◌, ◌++◌, ◌==◌,
  if◌then◌else◌, contains, all,
}
use flatpak_blackbox_tests.Base.Dict.{Dict, has, insert, lookup}
use flatpak_blackbox_tests.Json.Value.{
  Value, text, list, FieldPath, root, item, field, bad_include, duplicate_include,
  recursive_include, wrong_scope, invalid, Result, ok, err, ◌>>=◌, ◌>>◌, guard, items, values,
}
use flatpak_blackbox_tests.Json.Validate.{object_map, array}
use flatpak_blackbox_tests.Schema.Index.{indexed}
use flatpak_blackbox_tests.Schema.Behaviors.{item_id, parse_requirements}
use flatpak_blackbox_tests.Schema.Groups.{items_at, typed_text, as_texts}

-- The parameters: `load_json`, `(directory / relative).resolve()`, and the tests of an include.
pub record Files : Type 0 where
  pub load : String → Result Value
  pub resolve : String → String
  pub is_absolute : String → Bool
  pub suffix : String → String
  pub is_inside : String → Bool
  pub index : String

-- the document in the making: its fields, its requirements and its limitations
pub record Joined : Type 0 where
  pub document : Dict Value
  pub requirements : List Value
  pub limitations : List Value

unfoldable pub read_interface : Value → Result String
read_interface v = do
  requirement ← object_map v (root "requirement")
  typed_text requirement "interface" (root "requirement")

-- `any(item["interface"] != result["scope"] for item in ...)`
unfoldable pub has_scope : String → List Value → Result Bool
unfolding read_interface
has_scope scope [] = ok true
has_scope scope (v ∷ vs) = do
  interface ← read_interface v
  rest ← has_scope scope vs
  ok (interface == scope && rest)

module _ (files : Files) where
  unfoldable pub read_requirements : String → Result Joined
  read_requirements path = do
    raw ← files.load path
    w ← parse_requirements raw (root path)
    document ← object_map w (root path)
    requirements ← items_at document "requirements" (root path)
    limitations ← items_at document "limitations" (root path)
    ok (record { document = document; requirements = requirements; limitations = limitations })

  -- the tests of an include's path
  abbrev pub is_include : String → Bool
  is_include include =
      not (files.is_absolute include)
      && (files.suffix include == ".json"
          && (files.is_inside (files.resolve include)
              && not (files.resolve include == files.index)))

  -- a shard that is read and checked against the scope
  unfoldable pub read_shard : String → String → Result Joined
  unfolding read_requirements has_scope
  read_shard scope shard = do
    joined ← read_requirements shard
    guard (not (has "includes" joined.document)) (invalid (root shard) recursive_include)
    own ← typed_text joined.document "scope" (root shard)
    scoped ← has_scope scope joined.requirements
    guard (own == scope && scoped) (invalid (root shard) wrong_scope)
    ok joined

  unfoldable pub join_shards : String → String → List String → Joined → List String → Result Joined
  unfolding read_shard
  join_shards path scope seen result [] = ok result
  join_shards path scope seen result (include ∷ includes) = do
    guard (is_include include) (invalid (root path) bad_include)
    guard (not (contains (files.resolve include) seen)) (invalid (root path) duplicate_include)
    joined ← read_shard scope (files.resolve include)
    join_shards path scope (files.resolve include ∷ seen)
        (record result {
          requirements = result.requirements ++ joined.requirements;
          limitations = result.limitations ++ joined.limitations;
        })
        includes

  -- `result.get("includes", [])`
  abbrev pub includes_of : Option Value → FieldPath → Result (List String)
  includes_of none path = ok []
  includes_of (some v) path = do vs ← array v path; as_texts vs path

  unfoldable pub load_requirements : String → Result Joined
  unfolding join_shards
  load_requirements path = do
    result ← read_requirements path
    scope ← typed_text result.document "scope" (root path)
    includes ← includes_of (lookup "includes" result.document) (field (root path) "includes")
    joined ← join_shards path scope [] result includes
    known ← indexed item_id "requirement" joined.requirements
    ok joined
