-- ===== src/Coverage/Records.antt =====
-- The parts of the suite's TypedDicts (catalogue.py, catalogue_schema.py, report_schema.py) that
-- coverage_report.py reads, as they stand after their checked parsers. A field of a `total=False`
-- class is an `Option`. Extension fields, which the parsers keep, are left out where no code here reads
-- or compares them.
use flatpak_blackbox_tests.Base.{
  String, Bool, true, false, ◌&&◌, Option, none, some, List, [], ◌∷◌, ◌==◌, if◌then◌else◌, ◌≡◌,
  refl, arith, eq_iff, ◌↔◌,
}
use flatpak_blackbox_tests.Base.Dict.{Dict}
use flatpak_blackbox_tests.Base.Int.{ℤ}
use flatpak_blackbox_tests.Json.Value.{Value}

pub record Surface : Type 0 where
  pub id : String
  pub kind : String
  pub name : String

pub record Source : Type 0 where
  pub path : String
  pub anchor : String

pub record Requirement : Type 0 where
  pub id : String
  pub interface : String
  pub profile : String
  pub category : String
  pub description : String
  pub sources : List Source
  pub surfaces : List String
  pub required_capabilities : List String

-- `Behavior`: a gap has no scenario.
pub record Behavior : Type 0 where
  pub id : String
  pub scenario : Option String
  pub profile : String
  pub drivers : List String
  pub required_capabilities : List String
  pub execution_environment : Option String

pub record SurfaceAssertion : Type 0 where
  pub id : String
  pub rationale : String

pub record CoverageMapping : Type 0 where
  pub behavior_id : String
  pub driver : String
  pub profile : String
  pub requirements : List String
  pub rationale : String
  pub surface_assertions : Option (List SurfaceAssertion)
  pub equivalent_options : Option (List SurfaceAssertion)

pub record RequirementsDocument : Type 0 where
  pub scope : String
  pub limitations : List String
  pub requirements : List Requirement

pub record CaseIdentity : Type 0 where
  pub behavior_id : String
  pub driver : String
  pub profile : String

-- equality of the tuples that `case_key` returns
abbrev pub same_case : CaseIdentity → CaseIdentity → Bool
same_case a b = a.behavior_id == b.behavior_id && (a.driver == b.driver && a.profile == b.profile)

pub same_case_iff : (a b : CaseIdentity) → (same_case a b ≡ true) ↔ (a ≡ b)
same_case_iff a b = (
  λ h. ground (
    arith,
    eq_iff a.behavior_id b.behavior_id,
    eq_iff a.driver b.driver,
    eq_iff a.profile b.profile,
  ),
  λ h. ground (
    arith,
    eq_iff a.behavior_id b.behavior_id,
    eq_iff a.driver b.driver,
    eq_iff a.profile b.profile,
  ),
)

-- A dictionary keyed by cases.
abbrev pub CaseDict : Type 0 → Type 0
CaseDict V = List (CaseIdentity × V)

abbrev pub case_lookup : {V : Type 0} → CaseIdentity → CaseDict V → Option V
case_lookup k [] = none
case_lookup k ((j, v) ∷ d) = if same_case j k then some v else case_lookup k d

pub record EvidenceRecord : Type 0 where
  pub argv : Option (List String)
  pub cli_argv : Option (List String)
  pub interface : Option String
  pub exit_status : Option ℤ
  pub stdout : Option String
  pub stderr : Option String
  pub api_calls : Option (List String)
  pub signals : Option (List String)
  pub observation : Option String
  pub observed : Option Value

pub record CaseResult : Type 0 where
  pub identity : CaseIdentity
  pub open identity use *
  pub status : String
  pub evidence : Option (List EvidenceRecord)
  pub cleanup_complete : Option Bool
  pub cleanup_error : Option String

pub record ArtifactProvenance : Type 0 where
  pub path : Option String
  pub sha256 : Option String

pub record TargetProvenance : Type 0 where
  pub configuration_sha256 : Option String
  pub cli_path : Option String
  pub cli_sha256 : Option String
  pub adapter_files : Option (List ArtifactProvenance)

pub record FixtureProvenance : Type 0 where
  pub path : Option String
  pub manifest_sha256 : Option String

pub record LibraryProvenance : Type 0 where
  pub path : Option String
  pub sha256 : Option String
  pub package_version : Option String
  pub client_sha256 : Option String

pub record ArtifactIntegrity : Type 0 where
  pub status : Option String
  pub changed_paths : Option (List String)

pub record Definition : Type 0 where
  pub schema : ℤ
  pub fingerprint : String
  pub files : Dict String
  pub policy_sha256 : String
  pub loader_sha256 : String
  pub reference_commit : String

-- A definition as a report has it, with the extension fields that the parser keeps.
pub record ReportedDefinition : Type 0 where
  pub definition : Definition
  pub extensions : Dict Value

pub record RunReport : Type 0 where
  pub results : Option (List CaseResult)
  pub coverage_definition : Option ReportedDefinition
  pub complete : Option Bool
  pub target : Option String
  pub target_version : Option String
  pub started_at : Option String
  pub finished_at : Option String
  pub target_provenance : Option TargetProvenance
  pub library_provenance : Option LibraryProvenance
  pub fixture_provenance : Option FixtureProvenance
  pub artifact_integrity : Option ArtifactIntegrity
  pub setup_error : Option String

-- `case_key`
unfoldable pub case_key : CaseResult → CaseIdentity
case_key case = case.identity

-- `record.get(key, [])` and `record.get(key) == text`
abbrev pub or_empty {ℓ} : {A : Type ℓ} → Option (List A) → List A
or_empty none = []
or_empty (some xs) = xs

abbrev pub is_text : String → Option String → Bool
is_text s none = false
is_text s (some t) = t == s

abbrev pub is_true : Option Bool → Bool
is_true (some true) = true
is_true _ = false

pub is_true_lem : (o : Option Bool) → is_true o ≡ true → o ≡ some true
is_true_lem none h = absurd (cc h)
is_true_lem (some true) h = refl
is_true_lem (some false) h = absurd (cc h)
