-- ===== src/Scenarios.antt =====
-- scenario_catalogue.py: the behaviors, mappings and clients of all scenario groups. The sorted listing of the
-- directory, the reading of a file and the tests of a path are parameters.
pub mod Laws
pub mod Kept
pub mod Clients
use flatpak_blackbox_tests.Base.{
  String, Bool, true, false, not, ◌&&◌, ◌||◌, Option, none, some, List, [], ◌∷◌, ◌++◌, ◌==◌,
  if◌then◌else◌, map,
}
use flatpak_blackbox_tests.Base.Dict.{Dict, has, insert, lookup}
use flatpak_blackbox_tests.Base.Order.{sorted_items}
use flatpak_blackbox_tests.Json.Value.{
  Value, FieldPath, root, field, value_error, Result, ok, err, ◌>>=◌, ◌>>◌, guard,
}
use flatpak_blackbox_tests.Json.Validate.{object_map}
use flatpak_blackbox_tests.Schema.Index.{indexed}
use flatpak_blackbox_tests.Schema.Behaviors.{item_id, parse_inventory, parse_mappings}
use flatpak_blackbox_tests.Schema.Groups.{
  items_at, typed_text, is_client_entry, is_client_source, parse_scenario_group,
}

pub record Suite : Type 0 where
  pub load : String → Result Value
  pub groups : List String
  pub inventory : String
  pub mapping : String
  -- `suite / source`, `path.is_file()`, `Path(source).name` and `str.isidentifier`
  pub join : String → String
  pub is_file : String → Bool
  pub name_of : String → String
  pub is_identifier : String → Bool

module _ (suite : Suite) where
  unfoldable pub read_document : String → Result (Dict Value)
  read_document path = do
    raw ← suite.load path
    parse_scenario_group suite.name_of suite.is_identifier raw (root path)

  unfoldable pub read_documents : List String → Result (List (Dict Value))
  unfolding read_document
  read_documents [] = ok []
  read_documents (path ∷ paths) = do
    first ← read_document path
    rest ← read_documents paths
    ok (first ∷ rest)

  -- `documents`
  abbrev pub documents : Result (List (Dict Value))
  documents = read_documents suite.groups

  -- `result.extend(document[key])`, for each document
  unfoldable pub extended : String → List Value → List (Dict Value) → Result (List Value)
  extended key result [] = ok result
  extended key result (document ∷ rest) = do
    vs ← items_at document key (root "scenario group")
    extended key (result ++ vs) rest

  unfoldable pub load_behaviors : Result (List Value)
  unfolding extended read_documents
  load_behaviors = do
    raw ← suite.load suite.inventory
    inventory ← parse_inventory suite.is_identifier raw (root suite.inventory)
    behaviors ← items_at inventory "behaviors" (root suite.inventory)
    groups ← documents
    result ← extended "behaviors" behaviors groups
    known ← indexed item_id "behavior" result
    ok result

  unfoldable pub load_mappings : Result (List Value)
  unfolding extended read_documents
  load_mappings = do
    raw ← suite.load suite.mapping
    checked ← parse_mappings raw (root suite.mapping)
    mapping ← object_map checked (root suite.mapping)
    cases ← items_at mapping "cases" (root suite.mapping)
    groups ← documents
    extended "mappings" cases groups

  -- `entry in clients and clients[entry] != path`
  abbrev pub is_other : Option String → String → Bool
  is_other none path = false
  is_other (some known) path = not (known == path)

  unfoldable pub add_client : Dict String → String → String → Result (Dict String)
  add_client clients entry source =
      let path = suite.join source in
      do
        guard (is_client_entry entry) (value_error "invalid client entry point")
        guard (is_client_source suite.name_of source) (value_error "invalid client source")
        guard (suite.is_file path && not (is_other (lookup entry clients) path))
            (value_error "missing or conflicting client source")
        ok (insert entry path clients)

  unfoldable pub client_of : Dict String → Option Value → Result (Dict String)
  unfolding add_client
  client_of clients none = ok clients
  client_of clients (some value) = do
    client ← object_map value (root "client")
    entry ← typed_text client "entry" (root "client")
    source ← typed_text client "source" (root "client")
    add_client clients entry source

  unfoldable pub clients_of : Dict String → List (Dict Value) → Result (Dict String)
  unfolding client_of
  clients_of clients [] = ok clients
  clients_of clients (document ∷ rest) = do
    next ← client_of clients (lookup "client" document)
    clients_of next rest

  unfoldable pub extension_clients : Result (List (String × String))
  unfolding clients_of read_documents
  extension_clients = do
    groups ← documents
    clients ← clients_of [] groups
    ok (map (λ e. (e.1, e.0)) (sorted_items clients))
