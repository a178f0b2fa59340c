-- ===== src/Target.antt =====
-- target_config.py: the configuration of a target.
pub mod Laws
use flatpak_blackbox_tests.Base.{
  String, Bool, true, false, not, ◌&&◌, ◌||◌, Option, none, some, List, [], ◌∷◌, ◌++◌, contains,
  if◌then◌else◌, has_char, is_empty,
}
use flatpak_blackbox_tests.Base.Dict.{Dict, lookup}
use flatpak_blackbox_tests.Json.Value.{
  Value, null, text, list, dict, nil, end, FieldPath, field, unknown_field, environment_name,
  empty_executable, invalid, Result, ok, err, ◌>>=◌, ◌>>◌, guard,
}
use flatpak_blackbox_tests.Json.Validate.{object_map, string, strings, required}

pub record LibraryConfig : Type 0 where
  pub runtime_library_dirs : List String
  pub environment : Dict String
  pub pkg_config : String
  pub «package» : String
  pub cc : String
  pub soname : String

pub record TargetConfig : Type 0 where
  pub name : String
  pub cli : String
  pub adapter : List String
  pub environment : Dict String
  pub unsupported_capabilities : Dict String
  pub library : Option LibraryConfig

-- `_known`. The source takes the unknown fields in the order of a set.
unfoldable pub known_fields : Dict Value → List String → FieldPath → Result (Unit {0})
known_fields [] fields path = ok tt
known_fields ((k, v) ∷ d) fields path = do
  guard (contains k fields) (invalid (field path k) unknown_field)
  known_fields d fields path

-- `data.get(key, default)`
abbrev pub get : Dict Value → String → Value → Value
get d key default = elim (lookup key d) [ none ↦ default | some v ↦ v ]

-- the loop of `parse_environment`: `b'='` is the character that a name cannot hold
unfoldable pub environment_entries : Dict Value → FieldPath → Result (Dict String)
environment_entries [] path = ok []
environment_entries ((key, v) ∷ d) path = do
  k ← string (text key) path true
  guard (not (has_char b'=' key)) (invalid (field path key) environment_name)
  s ← string v (field path key) false
  rest ← environment_entries d path
  ok ((key, s) ∷ rest)

unfoldable pub parse_environment : Value → FieldPath → Result (Dict String)
unfolding environment_entries
parse_environment value path = do d ← object_map value path; environment_entries d path

abbrev pub library_fields : List String
library_fields =
    "runtime_library_dirs" ∷ "environment" ∷ "pkg_config" ∷ "package" ∷ "cc" ∷ "soname" ∷ []

abbrev pub target_fields : List String
target_fields =
    "name" ∷ "cli" ∷ "adapter" ∷ "environment" ∷ "unsupported_capabilities" ∷ "library" ∷ []

-- `string(data.get(key, default), f"{path}.{key}", nonempty=True)`
abbrev pub text_or : Dict Value → String → String → FieldPath → Result String
text_or d key default path = string (get d key (text default)) (field path key) true

-- `_library`
unfoldable pub parse_library : Value → FieldPath → Result LibraryConfig
unfolding known_fields parse_environment
parse_library value path = do
  d ← object_map value path
  known_fields d library_fields path
  dirs ← strings (get d "runtime_library_dirs" (list nil)) (field path "runtime_library_dirs") true
  env ← parse_environment (get d "environment" (dict end)) (field path "environment")
  pkg ← text_or d "pkg_config" "pkg-config" path
  name ← text_or d "package" "flatpak" path
  compiler ← text_or d "cc" "cc" path
  so ← text_or d "soname" "libflatpak.so.0" path
  ok (record {
    runtime_library_dirs = dirs;
    environment = env;
    pkg_config = pkg;
    «package» = name;
    cc = compiler;
    soname = so;
  })

-- the loop over the unsupported capabilities
unfoldable pub capability_entries : Dict Value → FieldPath → Result (Dict String)
capability_entries [] path = ok []
capability_entries ((capability, v) ∷ d) path = do
  c ← string (text capability) path true
  reason ← string v (field path capability) true
  rest ← capability_entries d path
  ok ((capability, reason) ∷ rest)

-- `adapter and adapter[0]`
abbrev pub has_executable : List String → Bool
has_executable [] = false
has_executable (program ∷ arguments) = not (is_empty program)

abbrev pub optional_library : Value → FieldPath → Result (Option LibraryConfig)
optional_library null path = ok none
optional_library value path = do l ← parse_library value path; ok (some l)

unfoldable pub parse_target : Value → FieldPath → Result TargetConfig
unfolding known_fields parse_environment parse_library capability_entries
parse_target value path = do
  d ← object_map value path
  known_fields d target_fields path
  raw ← required d "adapter" path
  program ← strings raw (field path "adapter") false
  guard (has_executable program) (invalid (field path "adapter") empty_executable)
  capabilities ←
      object_map (get d "unsupported_capabilities" (dict end))
        (field path "unsupported_capabilities")
  unsupported ← capability_entries capabilities (field path "unsupported_capabilities")
  name_value ← required d "name" path
  title ← string name_value (field path "name") true
  cli_value ← required d "cli" path
  command ← string cli_value (field path "cli") true
  env ← parse_environment (get d "environment" (dict end)) (field path "environment")
  development ← optional_library (get d "library" null) (field path "library")
  ok (record {
    name = title;
    cli = command;
    adapter = program;
    environment = env;
    unsupported_capabilities = unsupported;
    library = development;
  })
