-- ===== src/Examples/Runner.antt =====
-- Runs of one case: one that passes, and one that fails and cannot be cleaned up.
use flatpak_blackbox_tests.Base.{String, true, false, Option, none, some, [], ◌∷◌, ◌≡◌, refl, ◌↔◌}
use flatpak_blackbox_tests.Base.Dict.{Dict}
use flatpak_blackbox_tests.Coverage.Records.{CaseResult, RunReport}
use flatpak_blackbox_tests.Coverage.Subject.{is_verified}
use flatpak_blackbox_tests.Runner.Failures.{
  contract_failure, other, expected_scenario_failures_only, check_artifacts,
}
use flatpak_blackbox_tests.Runner.Cases.Handled.{IsHandled}
use flatpak_blackbox_tests.Runner.Failures.Laws.{
  IsExpected, IsIntact, expected_scenario_failures_only_iff, check_artifacts_iff,
}
use flatpak_blackbox_tests.Runner.Attempt.{is_caught, Case, Arguments, World}
use flatpak_blackbox_tests.Runner.Cases.{Ending, is_complete, final_cases, main}
use flatpak_blackbox_tests.Runner.Cases.Laws.{IsSuccess, final_cases_complete, main_exit_zero}

abbrev case : Case
case = record {
  result = record {
    identity = record { behavior_id = "B1"; driver = "cli"; profile = "user" };
    status = "";
    evidence = none;
    cleanup_complete = none;
    cleanup_error = none;
  };
  scenario = "list_user";
  required_capabilities = "cli" ∷ [];
  execution_environment = none;
}

abbrev arguments : Arguments
arguments = record { driver = "all"; scenario = "all"; allow_expected_failures = false }

abbrev quiet : World
quiet = record {
  target = none;
  preparation = none;
  client = none;
  apis_missing = λ i. false;
  scenario = λ i. none;
  cleanup = λ i. none;
  recording = λ i. none;
}

abbrev digest_of : String → Option String
digest_of path = some "00"

abbrev ending : Ending
ending = record {
  digest_of = digest_of;
  verification = λ r. "current";
  summary_failed = false;
  summary_delivered = true;
}

abbrev artifacts : Dict String
artifacts = ("/usr/bin/flatpak", "00") ∷ []

abbrev empty : RunReport
empty = record {
  results = none;
  coverage_definition = none;
  complete = none;
  target = none;
  target_version = none;
  started_at = none;
  finished_at = none;
  target_provenance = none;
  library_provenance = none;
  fixture_provenance = none;
  artifact_integrity = none;
  setup_error = none;
}

abbrev passed_result : CaseResult
passed_result = record (case.result) { status = "passed"; cleanup_complete = some true }

abbrev report : RunReport
report = record empty {
  results = some (passed_result ∷ []);
  complete = some true;
  artifact_integrity = some (record { status = some "verified"; changed_paths = some [] });
}

ran : main quiet ending arguments ("cli" ∷ []) [] artifacts empty (case ∷ []) ≡ (report, some 0)
unfolding main is_verified
ran = refl

main_exit_zero_example : IsSuccess ending arguments report
main_exit_zero_example =
    main_exit_zero quiet ending arguments ("cli" ∷ []) [] artifacts empty (case ∷ []) report refl
      ran

-- A run whose scenario fails and whose cleanup fails too.
abbrev broken : World
broken = record quiet { scenario = λ i. some contract_failure; cleanup = λ i. some other }

broken-IsHandled : IsHandled broken
unfolding is_caught
broken-IsHandled = record {
  target = tt;
  preparation = tt;
  client = tt;
  scenario = λ i. refl;
  cleanup = λ i. refl;
  recording = λ i. tt;
}

final_cases_complete_example :
    ((final_cases broken arguments ("cli" ∷ []) [] (case ∷ [])).raised ≡ none)
    × (is_complete (final_cases broken arguments ("cli" ∷ []) [] (case ∷ [])).cases ≡ true)
final_cases_complete_example =
    final_cases_complete broken arguments ("cli" ∷ []) [] (case ∷ []) broken-IsHandled refl

expected_scenario_failures_only_iff_example :
    (expected_scenario_failures_only report (some "current") 1 true ≡ true)
    ↔ IsExpected report (some "current") 1 true
expected_scenario_failures_only_iff_example =
    expected_scenario_failures_only_iff report (some "current") 1 true

check_artifacts_iff_example :
    (is_verified (some (check_artifacts digest_of artifacts)) ≡ true) ↔ IsIntact digest_of artifacts
check_artifacts_iff_example = check_artifacts_iff digest_of artifacts
