-- ===== src/Examples/Groups.antt =====
-- An index of requirements with one shard, a suite of one scenario group, and a report.
use flatpak_blackbox_tests.Schema.Shapes.Report.{run_report_fields, case_result_fields}
use flatpak_blackbox_tests.Schema.Reports.{parse_report, list_of_field}
use flatpak_blackbox_tests.Schema.Reports.Laws.{OptionalSeconds, AreTimed, parse_report-AreTimed}
use flatpak_blackbox_tests.Base.{
  ℕ, Bool, String, true, false, ◌&&◌, List, [], ◌∷◌, ◌++◌, ◌==◌, if◌then◌else◌, all, any, All,
  is_unique, map, ◌≡◌, refl,
}
use flatpak_blackbox_tests.Base.Int.{pos}
use flatpak_blackbox_tests.Base.Dict.{Dict, keys, lookup}
use flatpak_blackbox_tests.Json.Value.{
  Value, int, text, list, dict, nil, cons, root, field, ok, entries,
}
use flatpak_blackbox_tests.Schema.Index.{members, IsKeyed}
use flatpak_blackbox_tests.Schema.Behaviors.{item_id, parse_inventory}
use flatpak_blackbox_tests.Schema.Groups.{items_at, typed_text, is_client_entry}
use flatpak_blackbox_tests.Schema.Shards.{
  Files, Joined, has_scope, read_requirements, is_include, includes_of, load_requirements,
}
use flatpak_blackbox_tests.Schema.Shards.Laws.{Shards, load_requirements-distinct}
use flatpak_blackbox_tests.Scenarios.{Suite, read_documents, load_behaviors, extension_clients}
use flatpak_blackbox_tests.Scenarios.Laws.{Gathered, load_behaviors-distinct}
use flatpak_blackbox_tests.Scenarios.Clients.{ClientOf, is_pair, extension_clients_lem}
use flatpak_blackbox_tests.Schema.Behaviors.{parse_requirements, with_behaviors}
use flatpak_blackbox_tests.Typed.{parse_typed, validate, check_required, check_items}
use flatpak_blackbox_tests.Json.Validate.{
  json_value, object_map, integer, array, schema_one, string, strings, required,
}
use flatpak_blackbox_tests.Schema.Shapes.Catalogue.{
  requirements_document_fields, requirement_fields, executable_behavior_fields, behavior_fields,
  inventory_fields, scenario_group_fields, client_fields,
}
use flatpak_blackbox_tests.Schema.Index.{indexed}
use flatpak_blackbox_tests.Schema.Groups.{parse_scenario_group}
use flatpak_blackbox_tests.Base.Order.{sorted_items}

abbrev requirement : String → Value
requirement id = dict (
    entries (
      ("id", text id)
      ∷ ("interface", text "cli")
      ∷ ("profile", text "user")
      ∷ ("category", text "query")
      ∷ ("description", text "lists")
      ∷ ("sources", list nil)
      ∷ ("surfaces", list nil)
      ∷ ("required_capabilities", list nil)
      ∷ []))

abbrev shard : Value
shard = dict (
    entries (
      ("schema", int (pos 1))
      ∷ ("scope", text "cli")
      ∷ ("limitations", list nil)
      ∷ ("requirements", list (cons (requirement "R2") nil))
      ∷ []))

abbrev index : Dict Value
index =
    ("schema", int (pos 1))
    ∷ ("scope", text "cli")
    ∷ ("limitations", list nil)
    ∷ ("requirements", list (cons (requirement "R1") nil))
    ∷ ("includes", list (cons (text "shard.json") nil))
    ∷ []

abbrev files : Files
files = record {
  load = λ path. ok (if path == "index.json" then dict (entries index) else shard);
  resolve = λ include. include;
  is_absolute = λ include. false;
  suffix = λ include. ".json";
  is_inside = λ include. true;
  index = "index.json";
}

abbrev joined : Joined
joined = record {
  document = index;
  requirements = requirement "R1" ∷ requirement "R2" ∷ [];
  limitations = [];
}

joined_read : load_requirements files "index.json" ≡ ok joined
unfolding load_requirements parse_requirements parse_typed json_value validate object_map
    check_required requirements_document_fields integer array check_items requirement_fields
    schema_one indexed string strings
joined_read = refl

load_requirements-distinct_example :
    (first : Joined) × (scope : String) × (includes : List String) × (added : List Value)
    × (known : Dict Value) × (read_requirements files "index.json" ≡ ok first)
    × (typed_text first.document "scope" (root "index.json") ≡ ok scope)
    × (includes_of files (lookup "includes" first.document) (field (root "index.json") "includes")
        ≡ ok includes)
    × (joined.requirements ≡ first.requirements ++ added)
    × Shards files includes added
    × (has_scope scope added ≡ ok true)
    × (all (is_include files) includes ≡ true)
    × (is_unique (map files.resolve includes) ≡ true)
    × (members item_id "requirement" known ≡ joined.requirements)
    × IsKeyed item_id "requirement" known
    × (is_unique (keys known) ≡ true)
load_requirements-distinct_example =
    load_requirements-distinct files "index.json" joined joined_read

abbrev behavior : String → Value
behavior id = dict (
    entries (
      ("id", text id)
      ∷ ("scenario", text "list_user")
      ∷ ("profile", text "user")
      ∷ ("drivers", list (cons (text "cli") nil))
      ∷ ("required_capabilities", list nil)
      ∷ []))

abbrev inventory : Value
inventory =
    dict (entries (("schema", int (pos 1)) ∷ ("behaviors", list (cons (behavior "B1") nil)) ∷ []))

abbrev group : Value
group = dict (
    entries (
      ("schema", int (pos 1))
      ∷ ("behaviors", list (cons (behavior "B2") nil))
      ∷ ("mappings", list nil)
      ∷ (
        "client",
        dict (entries (("source", text "extra.c") ∷ ("entry", text "blackbox_extra_main") ∷ [])),
      )
      ∷ []))

abbrev suite : Suite
suite = record {
  load = λ path. ok (if path == "inventory.json" then inventory else group);
  groups = "extra.json" ∷ [];
  inventory = "inventory.json";
  mapping = "mapping.json";
  join = λ source. source;
  is_file = λ path. true;
  name_of = λ path. path;
  is_identifier = λ s. true;
}

behaviors_read : load_behaviors suite ≡ ok (behavior "B1" ∷ behavior "B2" ∷ [])
unfolding load_behaviors parse_inventory object_map required array parse_typed json_value validate
    check_required executable_behavior_fields check_items string behavior_fields inventory_fields
    integer schema_one indexed parse_scenario_group scenario_group_fields client_fields
behaviors_read = refl

load_behaviors-distinct_example :
    (raw : Value) × (inventory' : Dict Value) × (own added : List Value) × (known : Dict Value)
    × (suite.load suite.inventory ≡ ok raw)
    × (parse_inventory suite.is_identifier raw (root suite.inventory) ≡ ok inventory')
    × (items_at inventory' "behaviors" (root suite.inventory) ≡ ok own)
    × Gathered suite suite.groups added
    × ((behavior "B1" ∷ behavior "B2" ∷ []) ≡ own ++ added)
    × (members item_id "behavior" known ≡ (behavior "B1" ∷ behavior "B2" ∷ []))
    × IsKeyed item_id "behavior" known
    × (is_unique (keys known) ≡ true)
load_behaviors-distinct_example =
    load_behaviors-distinct suite (behavior "B1" ∷ behavior "B2" ∷ []) behaviors_read

clients_read : extension_clients suite ≡ ok (("extra.c", "blackbox_extra_main") ∷ [])
unfolding extension_clients with_behaviors sorted_items object_map required array parse_typed
    json_value validate check_required executable_behavior_fields check_items string behavior_fields
    inventory_fields integer schema_one indexed parse_scenario_group scenario_group_fields
    client_fields
clients_read = refl

extension_clients_lem_example :
    (groups : List (Dict Value)) × (read_documents suite suite.groups ≡ ok groups)
    × (all
          (λ (e : String × String). is_client_entry e.1 && suite.is_file e.0)
          (("extra.c", "blackbox_extra_main") ∷ [])
        ≡ true)
    × All
        (λ document.
          ClientOf suite
            (λ entry path.
              any (is_pair path entry) (("extra.c", "blackbox_extra_main") ∷ []) ≡ true)
            (lookup "client" document))
        groups
extension_clients_lem_example =
    extension_clients_lem suite (("extra.c", "blackbox_extra_main") ∷ []) clients_read

abbrev timed : Value
timed = dict (
    entries (
      ("behavior_id", text "B1")
      ∷ ("driver", text "cli")
      ∷ ("profile", text "user")
      ∷ ("status", text "passed")
      ∷ ("duration_seconds", int (pos 2))
      ∷ []))

abbrev report : Dict Value
report =
    ("schema", int (pos 1))
    ∷ ("duration_seconds", int (pos 3))
    ∷ ("results", list (cons timed nil))
    ∷ []

abbrev fits : ℕ → Bool
fits n = true

report_read :
    parse_report fits suite.is_identifier (dict (entries report)) (root "report") ≡ ok report
unfolding parse_report parse_typed json_value validate object_map check_required run_report_fields
    integer array check_items case_result_fields schema_one
report_read = refl

parse_report-AreTimed_example :
    (results : List Value) × (list_of_field fits
        (lookup "results" report)
        (field (root "report") "results")
      ≡ ok results)
    × OptionalSeconds fits (lookup "duration_seconds" report)
    × AreTimed fits (field (root "report") "results") 0 results
parse_report-AreTimed_example =
    parse_report-AreTimed fits suite.is_identifier (dict (entries report)) (root "report") report
      report_read
