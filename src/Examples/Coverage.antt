-- ===== src/Examples/Coverage.antt =====
-- A suite with one CLI option, one requirement and one case, and a report of a run that passed it.
use flatpak_blackbox_tests.Base.{
  ℕ, String, true, false, none, some, List, [], ◌∷◌, ◌++◌, ◌==◌, keep, ◌≡◌, refl, ◌≤◌, ◌*◌, ◌/◌,
  ◌↔◌, contains, any, ◌&&◌,
}
use flatpak_blackbox_tests.Base.Int.{pos}
use flatpak_blackbox_tests.Json.Value.{Float, finite, ok}
use flatpak_blackbox_tests.Coverage.Records.{
  Surface, Requirement, Behavior, CoverageMapping, RequirementsDocument, CaseIdentity,
  EvidenceRecord, or_empty, is_true, CaseResult, Definition, RunReport,
}
use flatpak_blackbox_tests.Coverage.Model.{CoverageModel, Mapped, coverage_model, required_surfaces}
use flatpak_blackbox_tests.Coverage.Model.WellFormed.{IsWellFormed}
use flatpak_blackbox_tests.Coverage.Model.Invariant.{coverage_model-IsWellFormed}
use flatpak_blackbox_tests.Coverage.Credit.{credit_results, no_credit, Credit}
use flatpak_blackbox_tests.Coverage.Credit.Exact.{
  credit_results_exact, covers, credits_surface, credits_option,
}
use flatpak_blackbox_tests.Coverage.Metric.{metric}
use flatpak_blackbox_tests.Coverage.Metric.Bounds.{metric_bounds, passed_count, IsSubset}
use flatpak_blackbox_tests.Coverage.Subject.{
  subject_problem, is_passing, cases_problem, case_problem, command_problem, has_library,
}
use flatpak_blackbox_tests.Schema.Index.{indexed}
use flatpak_blackbox_tests.Json.Validate.{string}
use flatpak_blackbox_tests.Coverage.Subject.Laws.{
  subject_problem-none, HasSubject, HasPassing, AllPassing, IsAttributed,
}
use flatpak_blackbox_tests.Coverage.Options.{leading_option, invoked_option}
use flatpak_blackbox_tests.Coverage.Options.Laws.{
  leading_option_iff, leading_option-payload, invoked_option-wrapped, Leads,
}
use flatpak_blackbox_tests.Coverage.Summary.{
  summarize, Summary, metrics_of, implemented_by, verification_of, run_credit,
}
use flatpak_blackbox_tests.Base.Sort.{sorted}
use flatpak_blackbox_tests.Coverage.Summary.Verify.{verify, current, not_run, is_same_reported}
use flatpak_blackbox_tests.Coverage.Summary.Uncredited.{summarize_uncredited}
use flatpak_blackbox_tests.Coverage.Summary.Current.{IsCurrent}
use flatpak_blackbox_tests.Coverage.Summary.Sound.{
  summarize_passed, passed-IsSubset, verify-current_iff,
}

abbrev option_id : String
option_id = "cli.option.list.--user"

abbrev user_surface : Surface
user_surface = record { id = option_id; kind = "cli-option"; name = "--user" }

abbrev listing : Requirement
listing = record {
  id = "R1";
  interface = "cli";
  profile = "user";
  category = "query";
  description = "lists the user installation";
  sources = record { path = "doc/flatpak-list.xml"; anchor = "options" } ∷ [];
  surfaces = option_id ∷ [];
  required_capabilities = "base" ∷ [];
}

abbrev cli_document : RequirementsDocument
cli_document = record { scope = "cli"; limitations = []; requirements = listing ∷ [] }

abbrev library_document : RequirementsDocument
library_document = record { scope = "library"; limitations = []; requirements = [] }

abbrev list_user : Behavior
list_user = record {
  id = "B1";
  scenario = some "list_user";
  profile = "user";
  drivers = "cli" ∷ [];
  required_capabilities = [];
  execution_environment = none;
}

abbrev case : CaseIdentity
case = record { behavior_id = "B1"; driver = "cli"; profile = "user" }

abbrev list_mapping : CoverageMapping
list_mapping = record {
  behavior_id = "B1";
  driver = "cli";
  profile = "user";
  requirements = "R1" ∷ [];
  rationale = "asserts the listed references";
  surface_assertions = none;
  equivalent_options = none;
}

abbrev mapped : Mapped
mapped = record { requirements = "R1" ∷ []; surface_assertions = []; equivalent_options = [] }

abbrev model : CoverageModel
model = record {
  surfaces = (option_id, user_surface) ∷ [];
  requirements = ("R1", listing) ∷ [];
  cases = (case, list_user) ∷ [];
  mapping = (case, mapped) ∷ [];
  limitations = [];
}

model_built :
    coverage_model []
      (user_surface ∷ [])
      cli_document
      library_document
      (list_user ∷ [])
      (list_mapping ∷ [])
    ≡ ok model
unfolding coverage_model indexed string
model_built = refl

coverage_model-IsWellFormed_example : IsWellFormed model
coverage_model-IsWellFormed_example =
    coverage_model-IsWellFormed [] (user_surface ∷ []) cli_document library_document
      (list_user ∷ []) (list_mapping ∷ []) model model_built

abbrev digest : String
digest = "0123456789abcdef0123456789abcdef0123456789abcdef0123456789abcdef"

abbrev command : EvidenceRecord
command = record {
  argv = some ("/usr/bin/flatpak" ∷ "list" ∷ "--user" ∷ []);
  cli_argv = none;
  interface = some "cli";
  exit_status = some (pos 0);
  stdout = some "";
  stderr = some "";
  api_calls = none;
  signals = none;
  observation = none;
  observed = none;
}

abbrev result : CaseResult
result = record {
  identity = case;
  status = "passed";
  evidence = some (command ∷ []);
  cleanup_complete = some true;
  cleanup_error = none;
}

abbrev suite : Definition
suite = record {
  schema = pos 1;
  fingerprint = digest;
  files = ("run.py", digest) ∷ [];
  policy_sha256 = digest;
  loader_sha256 = digest;
  reference_commit = "1.16.0";
}

abbrev report : RunReport
report = record {
  results = some (result ∷ []);
  coverage_definition = some (record { definition = suite; extensions = [] });
  complete = some true;
  target = some "flatpak";
  target_version = some "1.16.0";
  started_at = some "2025-01-01T00:00:00";
  finished_at = some "2025-01-01T00:01:00";
  target_provenance = some (record {
    configuration_sha256 = some digest;
    cli_path = some "/usr/bin/flatpak";
    cli_sha256 = some digest;
    adapter_files = some (record { path = some "flatpak-adapter.py"; sha256 = some digest } ∷ []);
  });
  library_provenance = none;
  fixture_provenance = some (record { path = some "fixtures"; manifest_sha256 = some digest });
  artifact_integrity = some (record { status = some "verified"; changed_paths = some [] });
  setup_error = none;
}

attributed : subject_problem report (result ∷ []) ≡ none
unfolding subject_problem cases_problem case_problem command_problem
attributed = refl

abbrev results : List CaseResult
results = result ∷ []

some_passing : HasPassing results
unfolding is_passing
some_passing = refl

subject_problem-none_example :
    HasSubject report
    × (any (λ r. r.driver == "library") (keep is_passing results) ≡ true
        → has_library report.library_provenance ≡ true)
    × AllPassing IsAttributed results
subject_problem-none_example = subject_problem-none report results some_passing attributed

verify-current_iff_example :
    (verify model suite suite report ≡ current) ↔ IsCurrent model suite suite report
verify-current_iff_example = verify-current_iff model suite suite report

abbrev credit : Credit
credit = record {
  statuses = ("passed", 1) ∷ [];
  passed = "R1" ∷ [];
  passed_surfaces = option_id ∷ [];
  passed_equivalent = [];
  evidence = ("R1", case ∷ []) ∷ [];
  interface_evidence = (option_id, case ∷ []) ∷ [];
  equivalent_evidence = [];
}

credited : credit_results model report results no_credit ≡ ok credit
unfolding credit_results sorted
credited = refl

credit_results_exact_example :
    (contains "R1" credit.passed ≡ any (λ r. is_passing r && covers model r "R1") results)
    × (contains "R1" credit.passed_surfaces
        ≡ any (λ r. is_passing r && credits_surface model r "R1") results)
    × (contains "R1" credit.passed_equivalent
        ≡ any (λ r. is_passing r && credits_option model report r "R1") results)
credit_results_exact_example = credit_results_exact model report results credit credited "R1"

passed-IsSubset_example : IsSubset credit.passed (implemented_by model.mapping)
passed-IsSubset_example = passed-IsSubset model report results credit credited

-- one decimal, rounded down
abbrev round_percent : ℕ → ℕ → Float
round_percent n total = finite false ((n * 1000) / total) 1

abbrev summary : Summary
summary = record {
  verification = current;
  credit = credit;
  metrics = metrics_of round_percent model ("R1" ∷ []) (option_id ∷ []) (some credit);
  surfaces_without_requirements = [];
  unimplemented_requirements = [];
  unverified_requirements = some [];
  limitations = [];
}

summarized : summarize round_percent model suite suite (some report) ≡ ok summary
unfolding summarize run_credit verify is_same_reported subject_problem cases_problem case_problem
    command_problem credit_results required_surfaces sorted
summarized = refl

summarize_passed_example :
    IsCurrent model suite suite report
    × ((before : List CaseResult) × (r : CaseResult) × (after : List CaseResult) × (or_empty
            report.results
          ≡ before ++ r ∷ after)
        × (is_passing r ≡ true)
        × (covers model r "R1" ≡ true)
        × (is_true r.cleanup_complete ≡ true)
        × IsAttributed r)
summarize_passed_example =
    summarize_passed round_percent model suite suite report summary "R1" summarized refl

metric_bounds_example :
    let m = metric round_percent ("R1" ∷ "R2" ∷ []) ("R1" ∷ []) (some ("R1" ∷ [])) in
    (passed_count m ≤ m.implemented)
    × (m.implemented ≤ m.total)
    × ((m.total ≡ 0) ↔ (m.implemented_percent ≡ none))
    × ((m.total ≡ 0) ↔ (m.passed_percent ≡ none))
metric_bounds_example =
    metric_bounds round_percent ("R1" ∷ "R2" ∷ []) ("R1" ∷ []) ("R1" ∷ []) (λ x h. h)

leading_option_iff_example :
    (leading_option "--user" ("-v" ∷ "--user" ∷ "list" ∷ []) ≡ true)
    ↔ Leads "--user" ("-v" ∷ "--user" ∷ "list" ∷ [])
leading_option_iff_example = leading_option_iff "--user" ("-v" ∷ "--user" ∷ "list" ∷ [])

leading_option-payload_example :
    leading_option "--user" (("-v" ∷ []) ++ "list" ∷ "--user" ∷ [])
    ≡ leading_option "--user" ("-v" ∷ [])
leading_option-payload_example =
    leading_option-payload "--user" "list" ("-v" ∷ []) ("--user" ∷ []) refl

invoked_option-wrapped_example :
    let inner : List String = "flatpak" ∷ "list" ∷ "--user" ∷ [] in
    let wrapped = record command {
      argv = some ("env" ∷ ("A=1" ∷ []) ++ inner);
      cli_argv = some inner;
    } in
    invoked_option wrapped "flatpak" "list" "--user"
    ≡ invoked_option (record command { argv = some inner }) "flatpak" "list" "--user"
invoked_option-wrapped_example =
    invoked_option-wrapped command "flatpak" "list" "--user" "env" ("A=1" ∷ [])
      ("list" ∷ "--user" ∷ []) refl

abbrev without_run : Summary
without_run = record summary {
  verification = not_run;
  credit = no_credit;
  metrics = metrics_of round_percent model ("R1" ∷ []) (option_id ∷ []) none;
  unverified_requirements = none;
}

not_run_summary : summarize round_percent model suite suite none ≡ ok without_run
unfolding summarize required_surfaces sorted
not_run_summary = refl

summarize_uncredited_example :
    (without_run.verification ≡ verification_of model suite suite none)
    × (without_run.credit ≡ no_credit)
    × (without_run.unverified_requirements ≡ none)
    × (without_run.metrics.equivalence_checks.passed ≡ none)
    × (without_run.metrics.accounted.passed ≡ none)
summarize_uncredited_example =
    summarize_uncredited round_percent model suite suite none without_run not_run_summary
      (λ h. cc h)
