-- ===== src/Coverage/Summary/Verify.antt =====
-- coverage_report.py: the verification of a report, at the head of `summarize`.
use flatpak_blackbox_tests.Base.{
  String, Bool, true, false, not, ◌&&◌, ◌||◌, Option, none, some, List, [], ◌∷◌, ◌==◌,
  if◌then◌else◌, all, contains, eqb,
}
use flatpak_blackbox_tests.Base.Dict.{Dict, lookup}
use flatpak_blackbox_tests.Base.Int.{ℤ, pos, negsuc}
use flatpak_blackbox_tests.Coverage.Records.{
  CaseIdentity, CaseResult, RunReport, Definition, ReportedDefinition, same_case, or_empty, is_true,
}
use flatpak_blackbox_tests.Coverage.Model.{CoverageModel}
use flatpak_blackbox_tests.Coverage.Subject.{Problem, subject_problem, is_filled, is_nonempty}

abbrev pub statuses : List String
statuses =
    "passed" ∷ "failed" ∷ "unmet-prerequisite" ∷ "unsupported" ∷ "setup-error" ∷ "not-selected" ∷ []

-- The status, with what the reason tells apart.
pub data Verification : Type 0 where
  not_run unversioned stale incomplete wrong_cases unfinished : Verification
  unattributed : Problem → Verification
  current : Verification

unfoldable pub status_of : Verification → String
status_of not_run = "not-run"
status_of unversioned = "unversioned"
status_of stale = "stale"
status_of incomplete = "incomplete"
status_of wrong_cases = "invalid"
status_of unfinished = "invalid"
status_of (unattributed p) = "invalid"
status_of current = "current"

-- `==` of two integers, and of two values that may be missing
abbrev pub same_int : ℤ → ℤ → Bool
same_int (pos m) (pos n) = eqb m n
same_int (negsuc m) (negsuc n) = eqb m n
same_int _ _ = false

abbrev pub same_entry : Option String → Option String → Bool
same_entry none none = true
same_entry (some s) (some t) = s == t
same_entry _ _ = false

-- `==` of two dictionaries of texts
unfoldable pub same_files : Dict String → Dict String → Bool
same_files a b =
    all (λ (e : String × String). same_entry (lookup e.0 a) (lookup e.0 b)) a
    && all (λ (e : String × String). same_entry (lookup e.0 a) (lookup e.0 b)) b

unfoldable pub same_definition : Definition → Definition → Bool
unfolding same_files
same_definition a b =
    same_int a.schema b.schema
    && (a.fingerprint == b.fingerprint
        && (same_files a.files b.files
            && (a.policy_sha256 == b.policy_sha256
                && (a.loader_sha256 == b.loader_sha256
                    && a.reference_commit == b.reference_commit))))

-- The suite's own definition has no extension fields.
unfoldable pub is_same_reported : ReportedDefinition → Definition → Bool
unfolding same_definition
is_same_reported r d = not (is_nonempty r.extensions) && same_definition r.definition d

abbrev pub has_case : CaseIdentity → List CaseIdentity → Bool
has_case k [] = false
has_case k (j ∷ js) = same_case j k || has_case k js

abbrev pub distinct_cases : List CaseIdentity → Bool
distinct_cases [] = true
distinct_cases (k ∷ ks) = not (has_case k ks) && distinct_cases ks

abbrev pub case_keys {ℓ} : {V : Type ℓ} → List (CaseIdentity × V) → List CaseIdentity
case_keys [] = []
case_keys ((k, v) ∷ d) = k ∷ case_keys d

abbrev pub result_keys : List CaseResult → List CaseIdentity
result_keys [] = []
result_keys (r ∷ rs) = r.identity ∷ result_keys rs

-- No case twice, and the same cases as the model's.
unfoldable pub has_exact_cases : List CaseIdentity → List CaseIdentity → Bool
has_exact_cases ks cases =
    distinct_cases ks && (all (λ k. has_case k cases) ks && all (λ k. has_case k ks) cases)

-- A known status, and confirmed cleanup behind a pass.
unfoldable pub is_finished : CaseResult → Bool
is_finished r =
    contains r.status statuses
    && not (r.status == "passed" && (is_filled r.cleanup_error || not (is_true r.cleanup_complete)))

unfoldable pub verify_results : CoverageModel → RunReport → List CaseResult → Verification
unfolding has_exact_cases is_finished
verify_results m report results =
    if not (has_exact_cases (result_keys results) (case_keys m.cases))
    then wrong_cases
    else if not (all is_finished results)
    then unfinished
    else elim (subject_problem report results) [ none ↦ current | some p ↦ unattributed p ]

unfoldable pub verify : CoverageModel → Definition → Definition → RunReport → Verification
unfolding verify_results is_same_reported
verify m definition snapshot report = elim report.coverage_definition [
  | none ↦ unversioned
  | some d ↦
      if not (is_same_reported d definition && same_definition snapshot definition)
      then stale
      else if not (is_true report.complete)
      then incomplete
      else verify_results m report (or_empty report.results)
]
