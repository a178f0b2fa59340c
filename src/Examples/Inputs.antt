-- ===== src/Examples/Inputs.antt =====
-- A small fixture manifest, its parts, and a target configuration.
use flatpak_blackbox_tests.Base.{
  ◌≤◌, String, true, false, none, some, List, [], ◌∷◌, length, contains, ◌≡◌, refl, All,
}
use flatpak_blackbox_tests.Base.Int.{pos}
use flatpak_blackbox_tests.Base.Dict.{Dict, has, lookup}
use flatpak_blackbox_tests.Json.Value.{
  Value, int, text, list, dict, nil, cons, root, field, ok, entries,
}
use flatpak_blackbox_tests.Json.Validate.{
  object_map, string, strings, string_map, required, schema_one,
}
use flatpak_blackbox_tests.Fixture.Plan.{group, text_fields, text_dict, read_each}
use flatpak_blackbox_tests.Fixture.Plan.Laws.{group_fields}
use flatpak_blackbox_tests.Fixture.Contracts.{
  Contracts, aliases, versions, map_dict, parse_contracts,
}
use flatpak_blackbox_tests.Fixture.Contracts.Laws.{IsComplete, parse_contracts-IsComplete}
use flatpak_blackbox_tests.Fixture.Manifest.{parse_fixture, parse_transactions}
use flatpak_blackbox_tests.Fixture.Manifest.Laws.{
  IsManifest, parse_fixture-IsManifest, parse_transactions-apps,
}
use flatpak_blackbox_tests.Target.{TargetConfig, parse_target, target_fields}
use flatpak_blackbox_tests.Target.Laws.{IsUsable, parse_target-IsUsable}

abbrev assets : Dict Value
assets = ("runtime_tree", text "0a") ∷ ("app_tree", text "0b") ∷ []

assets_read :
    group (text_fields ("runtime_tree" ∷ "app_tree" ∷ [])) (dict (entries assets)) (root "assets")
    ≡ ok assets
unfolding group object_map required string
assets_read = refl

group_fields_example :
    (d : Dict Value) × (object_map (dict (entries assets)) (root "assets") ≡ ok d)
    × ((k : String) → has k assets ≡ has k d)
group_fields_example =
    group_fields (text_fields ("runtime_tree" ∷ "app_tree" ∷ [])) (dict (entries assets))
      (root "assets") assets assets_read

abbrev manifest : Dict Value
manifest =
    ("schema", int (pos 1))
    ∷ ("arch", text "x86_64")
    ∷ ("app", text "org.flatpak.Hello")
    ∷ ("runtime", text "org.flatpak.Platform")
    ∷ ("branch", text "test")
    ∷ ("commits", dict (entries (("A", text "0a") ∷ ("B", text "0b") ∷ [])))
    ∷ ("runtime_commit", text "0c")
    ∷ ("sha256", dict (entries []))
    ∷ []

manifest_read : parse_fixture (dict (entries manifest)) (root "fixture") ≡ ok manifest
unfolding parse_fixture object_map schema_one string_map group
manifest_read = refl

parse_fixture-IsManifest_example :
    (d : Dict Value) × (object_map (dict (entries manifest)) (root "fixture") ≡ ok d)
    × ((k : String) → has k manifest ≡ has k d)
    × IsManifest d (root "fixture")
parse_fixture-IsManifest_example =
    parse_fixture-IsManifest (dict (entries manifest)) (root "fixture") manifest manifest_read

abbrev transactions : Dict Value
transactions =
    ("directory", text "transactions")
    ∷ ("apps", list (cons (text "a") (cons (text "b") nil)))
    ∷ ("commits", dict (entries []))
    ∷ ("payloads", dict (entries []))
    ∷ ("metadata", dict (entries []))
    ∷ ("eol_reason", text "old")
    ∷ []

transactions_read :
    parse_transactions (dict (entries transactions)) (root "transactions") ≡ ok transactions
unfolding parse_transactions object_map required strings group read_each string_map
transactions_read = refl

parse_transactions-apps_example :
    (d : Dict Value) × (raw : Value) × (apps : List String) × (object_map
        (dict (entries transactions))
        (root "transactions")
      ≡ ok d)
    × (lookup "apps" d ≡ some raw)
    × (strings raw (field (root "transactions") "apps") false ≡ ok apps)
    × (2 ≤ length apps)
parse_transactions-apps_example =
    parse_transactions-apps (dict (entries transactions)) (root "transactions") transactions
      transactions_read

-- every alias names one ref, which every version has
abbrev one_ref : List String → Dict String
one_ref [] = []
one_ref (k ∷ ks) = (k, "ref") ∷ one_ref ks

abbrev one_commit : List String → Dict (Dict String)
one_commit [] = []
one_commit (k ∷ ks) = (k, ("ref", "0d") ∷ []) ∷ one_commit ks

abbrev contracts : Contracts
contracts = record {
  repos = one_ref versions;
  refs = one_ref aliases;
  commits = one_commit versions;
}

abbrev contracts_data : Dict Value
contracts_data =
    ("repos", dict (entries (text_dict (one_ref versions))))
    ∷ ("refs", dict (entries (text_dict (one_ref aliases))))
    ∷ ("commits", dict (entries (map_dict (one_commit versions))))
    ∷ []

contracts_read : parse_contracts (dict (entries contracts_data)) (root "contracts") ≡ ok contracts
unfolding parse_contracts object_map required string_map
contracts_read = refl

parse_contracts-IsComplete_example : IsComplete contracts
parse_contracts-IsComplete_example =
    parse_contracts-IsComplete (dict (entries contracts_data)) (root "contracts") contracts
      contracts_read

abbrev target_data : Dict Value
target_data =
    ("name", text "local")
    ∷ ("cli", text "flatpak")
    ∷ ("adapter", list (cons (text "./flatpak-adapter.py") nil))
    ∷ ("environment", dict (entries (("LANG", text "C") ∷ [])))
    ∷ []

abbrev target : TargetConfig
target = record {
  name = "local";
  cli = "flatpak";
  adapter = "./flatpak-adapter.py" ∷ [];
  environment = ("LANG", "C") ∷ [];
  unsupported_capabilities = [];
  library = none;
}

target_read : parse_target (dict (entries target_data)) (root "target") ≡ ok target
unfolding parse_target object_map required strings
target_read = refl

parse_target-IsUsable_example :
    IsUsable target
    × ((d : Dict Value) × (object_map (dict (entries target_data)) (root "target") ≡ ok d)
        × All (λ (e : String × Value). contains e.0 target_fields ≡ true) d)
parse_target-IsUsable_example =
    parse_target-IsUsable (dict (entries target_data)) (root "target") target target_read
