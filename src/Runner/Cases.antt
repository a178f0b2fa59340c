-- ===== src/Runner/Cases.antt =====
-- run.py: `main`, from the loops over the cases to the status that the process exits with.
pub mod Status
pub mod Served
pub mod Settled
pub mod Handled
pub mod Laws
use flatpak_blackbox_tests.Base.{
  ℕ, String, Bool, true, false, not, ◌&&◌, ◌||◌, Option, none, some, List, [], ◌∷◌, ◌==◌,
  if◌then◌else◌, any, all, contains, map, is_some,
}
use flatpak_blackbox_tests.Base.Dict.{Dict, has}
use flatpak_blackbox_tests.Coverage.Records.{
  CaseIdentity, CaseResult, ArtifactIntegrity, RunReport, is_text,
}
use flatpak_blackbox_tests.Coverage.Subject.{is_verified}
use flatpak_blackbox_tests.Runner.Failures.{
  Failure, contract_failure, diagnostic_failure, prerequisite_error, unsupported_capability, other,
  type_error, uncaught, failure_status, expected_scenario_failures_only, check_artifacts,
}
use flatpak_blackbox_tests.Runner.Attempt.{
  Case, Arguments, World, Run, Outcome, is_caught, is_cleanup_caught, kept_error, with_status,
  is_pending, is_selected, select, lacks_capability, needs_machine, refuse, declare_case,
  declare_unsupported, try_scenario, with_cleanup_error, clean_up, record_case, attempt, run_case,
  awaits, visit,
}

-- The loop over the inventory, for one driver. The cases behind one that raises are left as they are.
unfoldable pub run_cases : World → String → Option Failure → ℕ → List Case → Run
unfolding visit
run_cases w kind error status [] = record { cases = []; status = status; raised = none }
run_cases w kind error status (c ∷ cases) =
    let o = visit w kind error status c in
    let rest = run_cases w kind error o.status cases in
    elim o.raised [
      | some f ↦ record { cases = o.case ∷ cases; status = o.status; raised = some f }
      | none ↦ record rest { cases = o.case ∷ rest.cases }
    ]

-- The client is built for the library's cases only.
abbrev pub client_of : World → String → Option Failure
client_of w kind = if kind == "library" then w.client else none

unfoldable pub run_with : World → String → ℕ → List Case → Option Failure → Run
unfolding run_cases
run_with w kind status cases none = run_cases w kind none status cases
run_with w kind status cases (some f) = elim (kept_error f) [
  | none ↦ record { cases = cases; status = status; raised = some f }
  | some error ↦ run_cases w kind (some error) status cases
]

unfoldable pub run_kind : World → String → ℕ → List Case → Run
unfolding run_with
run_kind w kind status cases =
    if any (awaits kind) cases
    then run_with w kind status cases (client_of w kind)
    else record { cases = cases; status = status; raised = none }

-- The loop over the drivers.
unfoldable pub run_kinds : World → List String → ℕ → List Case → Run
unfolding run_kind
run_kinds w [] status cases = record { cases = cases; status = status; raised = none }
run_kinds w (kind ∷ kinds) status cases =
    let r = run_kind w kind status cases in
    let rest = run_kinds w kinds r.status r.cases in elim r.raised [ some f ↦ r | none ↦ rest ]

abbrev pub drivers_of : Arguments → List String
drivers_of args = if args.driver == "all" then "cli" ∷ "library" ∷ [] else args.driver ∷ []

-- The outer handler: the cases that are still pending take the failure's status.
unfoldable pub settle : Failure → List Case → List Case
unfolding failure_status
settle f cases = map (λ c. if is_pending c then with_status (failure_status f) c else c) cases

abbrev pub unknown_capability : List String → Dict String → Bool
unknown_capability known [] = false
unknown_capability known ((capability, reason) ∷ d) =
    not (contains capability known) || unknown_capability known d

-- The body of the outer `try`, after the target is loaded.
unfoldable pub execute_cases : World → Arguments → List String → Dict String → List Case → Run
unfolding declare_unsupported run_kinds
execute_cases w args known unsupported cases =
    let declared = declare_unsupported unsupported 0 cases in
    if unknown_capability known unsupported
    then record { cases = cases; status = 0; raised = some other }
    else if not (any is_pending declared.cases)
    then record declared { raised = some unsupported_capability }
    else elim w.preparation [
      | some f ↦ record declared { raised = some f }
      | none ↦ run_kinds w (drivers_of args) declared.status declared.cases
    ]

unfoldable pub try_cases : World → Arguments → List String → Dict String → List Case → Run
unfolding execute_cases
try_cases w args known unsupported cases = elim w.target [
  | some f ↦ record { cases = cases; status = 0; raised = some f }
  | none ↦ execute_cases w args known unsupported cases
]

-- The outer handler; what it does not catch goes on.
abbrev pub handle_raised : Run → Option Failure → Run
handle_raised r none = r
handle_raised r (some f) =
    if is_caught f then record { cases = settle f r.cases; status = 1; raised = none } else r

unfoldable pub handle : Run → Run
unfolding settle
handle r = handle_raised r r.raised

unfoldable pub final_cases : World → Arguments → List String → Dict String → List Case → Run
unfolding select try_cases handle
final_cases w args known unsupported cases =
    handle (try_cases w args known unsupported (select args cases))

-- What the end of `main` meets: the files' digests, the verification of the report, and whether the
-- summary could be written.
pub record Ending : Type 0 where
  pub digest_of : String → Option String
  pub verification : RunReport → String
  pub summary_failed : Bool
  pub summary_delivered : Bool

abbrev pub results_of : List Case → List CaseResult
results_of cases = map (λ c. c.result) cases

abbrev pub is_complete : List Case → Bool
is_complete cases = all (λ c. not (is_pending c)) cases

-- `setup_error` is set by the outer handler.
abbrev pub setup_error_of : Option Failure → Option String
setup_error_of none = none
setup_error_of (some f) = if is_caught f then some "setup error" else none

-- The report after the outer `finally` block.
unfoldable pub finished_report :
    Ending → Dict String → RunReport → Option Failure → List Case → RunReport
unfolding check_artifacts
finished_report e artifacts report failure cases = record report {
  results = some (results_of cases);
  complete = some (is_complete cases);
  setup_error = setup_error_of failure;
  artifact_integrity = some (check_artifacts e.digest_of artifacts);
}

-- `status` after the outer `finally` block
unfoldable pub end_status : Ending → ℕ → RunReport → ℕ
end_status e status report =
    let checked = if is_verified report.artifact_integrity then status else 1 in
    if e.verification report == "current" then checked else 1

unfoldable pub exit_status : Ending → Arguments → ℕ → RunReport → ℕ
unfolding end_status
exit_status e args status report =
    let ended = end_status e status report in
    let summarized = if e.summary_failed then 1 else ended in
    if args.allow_expected_failures
      && expected_scenario_failures_only report (some (e.verification report)) summarized
          e.summary_delivered
    then 0
    else summarized

-- The report, and the status that is returned unless an exception goes on.
unfoldable pub main :
    World
    → Ending
    → Arguments
    → List String
    → Dict String
    → Dict String
    → RunReport
    → List Case
    → RunReport × Option ℕ
unfolding final_cases finished_report exit_status
main w e args known unsupported artifacts report cases =
    let tried = try_cases w args known unsupported (select args cases) in
    let run = final_cases w args known unsupported cases in
    let final = finished_report e artifacts report tried.raised run.cases in
    (final, elim run.raised [ some f ↦ none | none ↦ some (exit_status e args run.status final) ])
