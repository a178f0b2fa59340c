-- ===== src/Fixture/Manifest.antt =====
-- fixture_manifest.py: the groups with domain constraints, and the whole manifest.
pub mod Laws
use Prim.Native.String.{◌++◌ as ◌<>◌}
use flatpak_blackbox_tests.Base.{
  ℕ, String, Bool, true, false, ◌&&◌, Option, none, some, List, [], ◌∷◌, ◌++◌, length, leb, all,
  contains,
}
use flatpak_blackbox_tests.Base.Int.{pos}
use flatpak_blackbox_tests.Base.Dict.{Dict, has, keys, lookup}
use flatpak_blackbox_tests.Json.Value.{
  Value, int, text, dict, FieldPath, field, missing_field, wrong_layouts, too_few_apps, invalid,
  Result, ok, err, ◌>>=◌, ◌>>◌, guard, entries,
}
use flatpak_blackbox_tests.Json.Validate.{
  object_map, string, strings, string_map, required, schema_one,
}
use flatpak_blackbox_tests.Fixture.Plan.{
  Reader, take, Step, always, given, as_text, as_filled, as_size, as_texts, as_map, as_dict,
  as_list, as_group, text_dict, text_field, text_fields, size_field, optional, read_steps, known,
  group,
}
use flatpak_blackbox_tests.Fixture.Parts.{
  parse_assets, parse_sizes, parse_build, parse_query_version, parse_policy_extension,
  parse_extension_mounts, parse_auth, parse_lifecycle_extra,
}
use flatpak_blackbox_tests.Fixture.Contracts.{parse_contracts, contracts_dict, required_in}

abbrev pub layouts : List String
layouts = "app_A" ∷ "app_B" ∷ "runtime" ∷ []

-- `set(d) != {...}` is the refusal.
unfoldable pub as_layouts : Reader
as_layouts v path = do
  d ← string_map v path false
  guard (all (λ k. contains k layouts) (keys d) && all (λ k. has k d) layouts)
      (invalid path wrong_layouts)
  ok (dict (entries (text_dict d)))

unfoldable pub parse_build_options : Value → FieldPath → Result (Dict Value)
unfolding as_layouts
parse_build_options = group (
    text_field "oci"
    ∷ text_field "oci_ref"
    ∷ optional "arch" as_text
    ∷ optional "arch_repo" as_text
    ∷ optional "arch_commits" (as_map false)
    ∷ optional "oci_updates" as_layouts
    ∷ [])

abbrev pub selection_refs : String → List String
selection_refs arch =
    ("app/org.flatpak.Selection/" <> (arch <> "/test"))
    ∷ ("app/org.flatpak.SelectionOther/" <> (arch <> "/test"))
    ∷ ("runtime/org.flatpak.SelectionPlatform/" <> (arch <> "/test"))
    ∷ ("runtime/org.flatpak.Selection.Locale/" <> (arch <> "/test"))
    ∷ []

unfoldable pub check_selection : List String → Dict String → FieldPath → Result (Unit {0})
unfolding required_in
check_selection [] commits path = ok tt
check_selection (ref ∷ refs) commits path = do
  commit ← required_in commits ref path
  s ← string (text commit) (field path ref) true
  check_selection refs commits path

unfoldable pub as_selection : String → Reader
unfolding check_selection
as_selection arch v path = do
  d ← string_map v path false
  check_selection (selection_refs arch) d path
  ok (dict (entries (text_dict d)))

unfoldable pub parse_queries : String → Value → FieldPath → Result (Dict Value)
unfolding as_selection
parse_queries arch = group (
    text_fields ("app" ∷ "second" ∷ "extension" ∷ "foreign_arch" ∷ [])
    ++ always (take "versions" (as_dict (as_group parse_query_version)))
      ∷ text_field "bundle_urls"
      ∷ size_field "bundle_urls_size"
      ∷ text_field "bundle_plain"
      ∷ size_field "bundle_plain_size"
      ∷ text_fields ("policy_repo" ∷ "policy_ref" ∷ "policy_commit" ∷ "policy_metadata" ∷ [])
    ++ always (take "policy_extensions" (as_list (as_group parse_policy_extension)))
      ∷ text_field "appstream"
      ∷ always (take "icons" (as_map false))
      ∷ optional "search_kind_repo" as_text
      ∷ given "selection_repo"
          (take "selection_repo" as_text ∷ take "selection_commits" (as_selection arch) ∷ [])
      ∷ optional "extension_mounts" (as_group parse_extension_mounts)
      ∷ [])

-- The apps are read, and counted, before the other fields.
unfoldable pub parse_transactions : Value → FieldPath → Result (Dict Value)
parse_transactions value path = do
  data' ← object_map value path
  raw ← required data' "apps" path
  apps ← strings raw (field path "apps") false
  guard (leb 2 (length apps)) (invalid (field path "apps") too_few_apps)
  group
      (text_field "directory"
        ∷ always (take "apps" as_texts)
        ∷ always (take "commits" (as_dict (as_map false)))
        ∷ always (take "payloads" (as_dict (as_dict as_texts)))
        ∷ always (take "metadata" (as_map false))
        ∷ text_field "eol_reason"
        ∷ [])
      value path

unfoldable pub parse_extras : Value → FieldPath → Result (Dict Value)
parse_extras = group (
    optional "transactions" (as_group parse_transactions)
    ∷ optional "auth" (as_group parse_auth)
    ∷ [])

abbrev as_contracts : Reader
as_contracts v path = do c ← parse_contracts v path; ok (dict (entries (contracts_dict c)))

-- The schema is 1: it was checked before.
abbrev as_one : Reader
as_one v path = ok (int (pos 1))

abbrev pub fixture_steps : String → List Step
fixture_steps arch =
    always (take "schema" as_one)
    ∷ always (take "arch" as_filled)
    ∷ always (take "app" as_filled)
    ∷ always (take "runtime" as_filled)
    ∷ always (take "branch" as_filled)
    ∷ always (take "commits" (as_map true))
    ∷ text_field "runtime_commit"
    ∷ always (take "sha256" (as_map false))
    ∷ optional "directory" as_text
    ∷ optional "reference_version" as_text
    ∷ optional "compiler" as_text
    ∷ optional "assets" (as_group parse_assets)
    ∷ optional "sizes" parse_sizes
    ∷ optional "build" (as_group parse_build)
    ∷ optional "build_options" (as_group parse_build_options)
    ∷ optional "queries" (as_group (parse_queries arch))
    ∷ optional "extras" (as_group parse_extras)
    ∷ optional "lifecycle_extra" (as_group parse_lifecycle_extra)
    ∷ optional "contracts" as_contracts
    ∷ []

-- `arch` is read once more by its own step, with the same result.
unfoldable pub parse_fixture : Value → FieldPath → Result (Dict Value)
parse_fixture value path = do
  data' ← object_map value path
  schema_one data' path
  raw ← required data' "commits" path
  commits ← string_map raw (field path "commits") true
  guard (has "A" commits) (invalid (field (field path "commits") "A") missing_field)
  guard (has "B" commits) (invalid (field (field path "commits") "B") missing_field)
  arch_value ← required data' "arch" path
  arch ← string arch_value (field path "arch") true
  group (fixture_steps arch) value path
