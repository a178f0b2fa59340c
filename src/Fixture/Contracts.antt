-- ===== src/Fixture/Contracts.antt =====
-- fixture_manifest.py: `parse_contracts`, the repositories of the transaction contracts.
pub mod Laws
use flatpak_blackbox_tests.Base.{String, Bool, true, false, Option, none, some, List, [], ◌∷◌}
use flatpak_blackbox_tests.Base.Dict.{Dict, lookup}
use flatpak_blackbox_tests.Json.Value.{
  Value, text, dict, FieldPath, field, missing_field, invalid, Result, ok, err, ◌>>=◌, ◌>>◌,
  entries,
}
use flatpak_blackbox_tests.Json.Validate.{object_map, string, string_map, required}
use flatpak_blackbox_tests.Fixture.Plan.{text_dict, known}

abbrev pub aliases : List String
aliases =
    "one" ∷ "two" ∷ "platform" ∷ "sdk" ∷ "extension" ∷ "shared" ∷ "one_debug" ∷ "two_debug"
    ∷ "platform_debug" ∷ "sdk_debug" ∷ []

abbrev pub versions : List String
versions = "A" ∷ "RUNTIME" ∷ "EXTENSION" ∷ "APP" ∷ []

-- `required`, on a dictionary that is checked already
unfoldable pub required_in {ℓ} : {A : Type ℓ} → Dict A → String → FieldPath → Result A
required_in d key path = elim (lookup key d) [
  | none ↦ err (invalid (field path key) missing_field)
  | some a ↦ ok a
]

-- `{version: string_map(item, ..., nonempty=True) for version, item in d.items()}`
unfoldable pub maps_of : Dict Value → FieldPath → Result (Dict (Dict String))
maps_of [] path = ok []
maps_of ((k, v) ∷ d) path = do
  m ← string_map v (field path k) true
  rest ← maps_of d path
  ok ((k, m) ∷ rest)

unfoldable pub check_aliases : List String → Dict String → FieldPath → Result (Unit {0})
unfolding required_in
check_aliases [] refs path = ok tt
check_aliases (alias ∷ rest) refs path = do
  ref ← required_in refs alias path
  s ← string (text ref) (field path alias) true
  check_aliases rest refs path

abbrev pub values_of : Dict String → List String
values_of [] = []
values_of ((k, s) ∷ d) = s ∷ values_of d

unfoldable pub check_refs : List String → Dict String → FieldPath → Result (Unit {0})
unfolding required_in
check_refs [] commits path = ok tt
check_refs (ref ∷ rest) commits path = do
  commit ← required_in commits ref path
  check_refs rest commits path

-- The commits of a version are an object already, so the source's `object_map` only copies them.
unfoldable pub check_versions :
    List String → Dict String → Dict (Dict String) → List String → FieldPath → Result (Unit {0})
unfolding required_in check_refs
check_versions [] repos commits refs path = ok tt
check_versions (version ∷ rest) repos commits refs path = do
  repo ← required_in repos version (field path "repos")
  of_version ← required_in commits version (field path "commits")
  check_refs refs of_version (field (field path "commits") version)
  check_versions rest repos commits refs path

abbrev pub map_dict : Dict (Dict String) → Dict Value
map_dict [] = []
map_dict ((k, m) ∷ d) = (k, dict (entries (text_dict m))) ∷ map_dict d

pub record Contracts : Type 0 where
  pub repos : Dict String
  pub refs : Dict String
  pub commits : Dict (Dict String)

abbrev pub contracts_dict : Contracts → Dict Value
contracts_dict c =
    ("repos", dict (entries (text_dict c.repos)))
    ∷ ("refs", dict (entries (text_dict c.refs)))
    ∷ ("commits", dict (entries (map_dict c.commits)))
    ∷ []

unfoldable pub parse_contracts : Value → FieldPath → Result Contracts
unfolding maps_of check_aliases check_versions known
parse_contracts value path = do
  data' ← object_map value path
  repos_value ← required data' "repos" path
  repos ← string_map repos_value (field path "repos") true
  refs_value ← required data' "refs" path
  refs ← string_map refs_value (field path "refs") true
  commits_value ← required data' "commits" path
  by_version ← object_map commits_value (field path "commits")
  commits ← maps_of by_version (field path "commits")
  let result : Contracts = record { repos = repos; refs = refs; commits = commits }
  check_aliases aliases refs (field path "refs")
  check_versions versions repos commits (values_of refs) path
  known data' (contracts_dict result) path
  ok result
