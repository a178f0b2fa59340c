-- ===== src/Coverage/Model.antt =====
-- coverage_report.py: `CoverageModel.__init__`, over the documents that its loaders return. The three
-- dictionaries `mapping`, `surface_assertions` and `equivalent_options` share their keys, which are
-- set together: here they are one dictionary of `Mapped`.
pub mod WellFormed
mod Steps
pub mod Invariant
use flatpak_blackbox_tests.Base.{
  ℕ, String, Bool, true, false, not, ◌&&◌, ◌||◌, Option, none, some, List, [], ◌∷◌, ◌++◌, ◌==◌,
  if◌then◌else◌, any, all, is_empty, all_chars, after_prefix, starts_with, contains, is_unique, add,
  add_all, is_some, leb, eqb,
}
use flatpak_blackbox_tests.Base.Words.{is_space}
use flatpak_blackbox_tests.Base.Dict.{Dict, lookup, has}
use flatpak_blackbox_tests.Json.Value.{
  Value, text, Error, value_error, key_error, Result, ok, err, ◌>>=◌, ◌>>◌, guard,
}
use flatpak_blackbox_tests.Schema.Index.{indexed, members}
use flatpak_blackbox_tests.Coverage.Records.{
  Surface, Requirement, Behavior, SurfaceAssertion, CoverageMapping, RequirementsDocument,
  CaseIdentity, CaseDict, same_case, case_lookup, or_empty,
}

abbrev pub kinds : List String
kinds = "cli-command" ∷ "cli-option" ∷ "library-function" ∷ "library-signal" ∷ []

abbrev pub profiles : List String
profiles = "user" ∷ "system" ∷ "any" ∷ []

pub record Mapped : Type 0 where
  pub requirements : List String
  pub surface_assertions : List String
  pub equivalent_options : List String

pub record CoverageModel : Type 0 where
  pub surfaces : Dict Surface
  pub requirements : Dict Requirement
  pub cases : CaseDict Behavior
  pub mapping : CaseDict Mapped
  pub limitations : List String

-- `for x in xs: ...`, where the body only raises
abbrev pub each {ℓ} : {A : Type ℓ} → (A → Result (Unit {0})) → List A → Result (Unit {0})
each f [] = ok tt
each f (x ∷ xs) = f x >> each f xs

abbrev pub is_nonempty {ℓ} : {A : Type ℓ} → List A → Bool
is_nonempty [] = false
is_nonempty (x ∷ xs) = true

-- `d[key]`
abbrev pub subscript {ℓ} : {A : Type ℓ} → String → Dict A → Result A
subscript key d = elim (lookup key d) [ none ↦ err (key_error key) | some a ↦ ok a ]

unfoldable pub check_surface : Surface → Result (Unit {0})
check_surface s = guard (contains s.kind kinds) (value_error "unknown surface kind")

-- `kind.startswith(interface + "-")`
abbrev pub is_kind_of : String → String → Bool
is_kind_of interface kind = elim (after_prefix interface kind) [
  | none ↦ false
  | some rest ↦ starts_with rest "-"
]

unfoldable pub check_reference : Dict Surface → String → String → Result (Unit {0})
check_reference surfaces interface surface_id = elim (lookup surface_id surfaces) [
  | none ↦ err (value_error "unknown surface")
  | some s ↦ guard (is_kind_of interface s.kind) (value_error "cross-interface surface reference")
]

abbrev pub has_contract : Requirement → Bool
has_contract r = not (is_empty r.description) && is_nonempty r.sources

abbrev pub has_capabilities : Requirement → Bool
has_capabilities r =
    is_nonempty r.required_capabilities
    && (all (λ c. not (is_empty c)) r.required_capabilities && is_unique r.required_capabilities)

unfoldable pub check_requirement : Dict Surface → String → Requirement → Result (Unit {0})
unfolding check_reference
check_requirement surfaces interface r = do
  guard (r.interface == interface && contains r.profile profiles)
      (value_error "invalid interface/profile")
  guard (has_contract r) (value_error "requirement lacks contract/source")
  guard (has_capabilities r) (value_error "invalid requirement capabilities")
  guard (is_nonempty r.surfaces) (value_error "requirement lacks interface references")
  each (check_reference surfaces interface) r.surfaces

-- one round of the loop over the interfaces
unfoldable pub check_document :
    Dict Surface → String → RequirementsDocument → Result (List Requirement)
unfolding check_requirement
check_document surfaces interface document = do
  guard (document.scope == interface) (value_error "requirement file has incorrect interface scope")
  each (check_requirement surfaces interface) document.requirements
  ok document.requirements

-- the inner loop: one case for each driver of a behavior
unfoldable pub add_drivers : Behavior → List String → CaseDict Behavior → Result (CaseDict Behavior)
add_drivers b [] cases = ok cases
add_drivers b (driver ∷ rest) cases =
    let key : CaseIdentity = record { behavior_id = b.id; driver = driver; profile = b.profile } in
    let others = add_drivers b rest (cases ++ (key, b) ∷ []) in
    if is_some (case_lookup key cases) || not (contains driver ("cli" ∷ "library" ∷ []))
    then err (value_error "invalid or duplicate case")
    else others

unfoldable pub add_cases : List Behavior → CaseDict Behavior → Result (CaseDict Behavior)
unfolding add_drivers
add_cases [] cases = ok cases
add_cases (b ∷ rest) cases = do
  cases' ← elim b.scenario [
    | none ↦ ok cases
    | some s ↦ do
      guard (contains b.profile profiles) (value_error "invalid case profile")
      add_drivers b b.drivers cases
  ]
  add_cases rest cases'

unfoldable pub check_mapped : Dict Requirement → CaseIdentity → String → Result (Unit {0})
check_mapped requirements key identifier = elim (lookup identifier requirements) [
  | none ↦ err (value_error "unknown mapped requirement")
  | some r ↦
      guard (r.interface == key.driver && contains r.profile ("any" ∷ key.profile ∷ []))
        (value_error "mapping cannot cover interface/profile")
]

abbrev pub allowed_kinds : String → List String
allowed_kinds driver =
    if driver == "cli" then "cli-option" ∷ [] else "library-function" ∷ "library-signal" ∷ []

-- `identifier in surfaces and surfaces[identifier]["kind"] in allowed`
abbrev pub has_kind : Dict Surface → List String → String → Bool
has_kind surfaces allowed identifier = elim (lookup identifier surfaces) [
  | none ↦ false
  | some s ↦ contains s.kind allowed
]

unfoldable pub add_assertions :
    Dict Surface → List String → List SurfaceAssertion → List String → Result (List String)
add_assertions surfaces allowed [] assertions = ok assertions
add_assertions surfaces allowed (a ∷ rest) assertions =
    let others = add_assertions surfaces allowed rest (add a.id assertions) in
    if has_kind surfaces allowed a.id
      && (not (is_empty a.rationale) && not (contains a.id assertions))
    then others
    else err (value_error "invalid explicit surface assertion")

-- `{surface for identifier in ids for surface in requirements[identifier]["surfaces"]}`
unfoldable pub required_surfaces : Dict Requirement → List String → Result (List String)
required_surfaces requirements [] = ok []
required_surfaces requirements (identifier ∷ ids) = do
  r ← subscript identifier requirements
  rest ← required_surfaces requirements ids
  ok (add_all r.surfaces rest)

unfoldable pub add_equivalents :
    Dict Surface → String → List String → List SurfaceAssertion → List String → Result (List String)
add_equivalents surfaces driver behavioral [] equivalent = ok equivalent
add_equivalents surfaces driver behavioral (a ∷ rest) equivalent =
    let others = add_equivalents surfaces driver behavioral rest (add a.id equivalent) in
    if driver == "cli"
      && (has_kind surfaces ("cli-option" ∷ []) a.id
          && (not (all_chars is_space a.rationale)
              && not (contains a.id equivalent || contains a.id behavioral)))
    then others
    else err (value_error "invalid equivalent option")

abbrev pub mapping_key : CoverageMapping → CaseIdentity
mapping_key m = record { behavior_id = m.behavior_id; driver = m.driver; profile = m.profile }

-- the body of the loop over the mappings
unfoldable pub check_mapping :
    Dict Surface
    → Dict Requirement
    → CaseDict Behavior
    → CaseDict Mapped
    → CoverageMapping
    → Result Mapped
unfolding check_mapped add_assertions required_surfaces add_equivalents
check_mapping surfaces requirements cases mapping m = do
  let key = mapping_key m
  guard (is_some (case_lookup key cases) && not (is_some (case_lookup key mapping)))
      (value_error "unknown or duplicate coverage case")
  guard (not (is_empty m.rationale)) (value_error "coverage mapping needs an assertion rationale")
  guard (is_unique m.requirements) (value_error "duplicate requirement in coverage mapping")
  each (check_mapped requirements key) m.requirements
  assertions ← add_assertions surfaces (allowed_kinds m.driver) (or_empty m.surface_assertions) []
  required ← required_surfaces requirements m.requirements
  let behavioral = add_all assertions required
  equivalent ← add_equivalents surfaces m.driver behavioral (or_empty m.equivalent_options) []
  ok (record {
    requirements = m.requirements;
    surface_assertions = assertions;
    equivalent_options = equivalent;
  })

unfoldable pub add_mappings :
    Dict Surface
    → Dict Requirement
    → CaseDict Behavior
    → List CoverageMapping
    → CaseDict Mapped
    → Result (CaseDict Mapped)
unfolding check_mapping
add_mappings surfaces requirements cases [] mapping = ok mapping
add_mappings surfaces requirements cases (m ∷ rest) mapping = do
  entry ← check_mapping surfaces requirements cases mapping m
  add_mappings surfaces requirements cases rest (mapping ++ (mapping_key m, entry) ∷ [])

abbrev pub surface_id : Surface → Result Value
surface_id s = ok (text s.id)

abbrev pub requirement_id : Requirement → Result Value
requirement_id r = ok (text r.id)

abbrev pub behavior_id : Behavior → Result Value
behavior_id b = ok (text b.id)

-- `policy` is the constant `POLICY` and the catalogue's limitations.
unfoldable pub coverage_model :
    List String
    → List Surface
    → RequirementsDocument
    → RequirementsDocument
    → List Behavior
    → List CoverageMapping
    → Result CoverageModel
unfolding check_surface check_document add_cases add_mappings
coverage_model policy surface_items cli library behaviors mappings = do
  surfaces ← indexed surface_id "surface" surface_items
  each check_surface (members surface_id "surface" surfaces)
  cli_requirements ← check_document surfaces "cli" cli
  library_requirements ← check_document surfaces "library" library
  requirements ← indexed requirement_id "requirement" (cli_requirements ++ library_requirements)
  known ← indexed behavior_id "behavior" behaviors
  cases ← add_cases (members behavior_id "behavior" known) []
  mapping ← add_mappings surfaces requirements cases mappings []
  ok (record {
    surfaces = surfaces;
    requirements = requirements;
    cases = cases;
    mapping = mapping;
    limitations = policy ++ (cli.limitations ++ library.limitations);
  })
