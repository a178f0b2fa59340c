-- ===== src/Runner/Attempt.antt =====
-- run.py: what `main` does with one case: its selection, the tests of the target's capabilities, the attempt with its
-- handler and its cleanup. What a run meets outside the suite is a parameter, `World`: which exceptions are raised,
-- and where.
use flatpak_blackbox_tests.Base.{
  ℕ, String, Bool, true, false, not, ◌&&◌, ◌||◌, Option, none, some, List, [], ◌∷◌, ◌==◌,
  if◌then◌else◌, any, contains, map,
}
use flatpak_blackbox_tests.Base.Dict.{Dict, has}
use flatpak_blackbox_tests.Coverage.Records.{CaseIdentity, CaseResult, is_text}
use flatpak_blackbox_tests.Runner.Failures.{
  Failure, contract_failure, diagnostic_failure, prerequisite_error, unsupported_capability, other,
  uncaught, failure_status,
}

-- A case of the inventory, with its result as it stands.
pub record Case : Type 0 where
  pub result : CaseResult
  pub scenario : String
  pub required_capabilities : List String
  pub execution_environment : Option String

-- The command line's `--driver`, `--scenario` and `--allow-expected-failures`.
pub record Arguments : Type 0 where
  pub driver : String
  pub scenario : String
  pub allow_expected_failures : Bool

-- The exceptions of a run. `recording` is raised when the report is written behind a case. What the console writes is
-- left out.
pub record World : Type 0 where
  pub target : Option Failure
  pub preparation : Option Failure
  pub client : Option Failure
  pub apis_missing : CaseIdentity → Bool
  pub scenario : CaseIdentity → Option Failure
  pub cleanup : CaseIdentity → Option Failure
  pub recording : CaseIdentity → Option Failure

-- The cases as they stand, `status`, and the exception that is on its way.
pub record Run : Type 0 where
  pub cases : List Case
  pub status : ℕ
  pub raised : Option Failure

-- The same of one case.
pub record Outcome : Type 0 where
  pub case : Case
  pub status : ℕ
  pub raised : Option Failure

-- the classes that the handler of a case names, and the outer handler
unfoldable pub is_caught : Failure → Bool
is_caught uncaught = false
is_caught _ = true

-- the classes that the handler of a cleanup names
unfoldable pub is_cleanup_caught : Failure → Bool
is_cleanup_caught unsupported_capability = false
is_cleanup_caught uncaught = false
is_cleanup_caught _ = true

-- What is kept of an exception of `build_client`: a ContractFailure becomes a ValueError, and `none` is for the
-- classes that the handler does not name.
unfoldable pub kept_error : Failure → Option Failure
kept_error contract_failure = some other
kept_error diagnostic_failure = some other
kept_error prerequisite_error = some prerequisite_error
kept_error other = some other
kept_error _ = none

abbrev pub with_status : String → Case → Case
with_status s c = record c { result = record (c.result) { status = s } }

abbrev pub is_pending : Case → Bool
is_pending c = c.result.status == "pending"

abbrev pub is_selected : Arguments → Case → Bool
is_selected args c =
    contains args.driver ("all" ∷ c.result.driver ∷ [])
    && contains args.scenario ("all" ∷ c.scenario ∷ [])

unfoldable pub select : Arguments → List Case → List Case
select args cases =
    map (λ c. with_status (if is_selected args c then "pending" else "not-selected") c) cases

abbrev pub lacks_capability : Dict String → Case → Bool
lacks_capability unsupported c =
    any (λ capability. has capability unsupported) c.required_capabilities

-- System-profile execution requires a VM runner.
abbrev pub needs_machine : Case → Bool
needs_machine c =
    not (contains c.result.profile ("user" ∷ "any" ∷ []))
    && not (
        is_text "root-userns" c.execution_environment
        || is_text "provisioned-system" c.execution_environment)

-- One of the two tests of a case against the target.
abbrev pub refuse : Bool → Case × ℕ → Case × ℕ
refuse refused (c, status) =
    if is_pending c && refused then (with_status "unsupported" c, 1) else (c, status)

unfoldable pub declare_case : Dict String → ℕ → Case → Case × ℕ
declare_case unsupported status c =
    refuse (needs_machine c) (refuse (lacks_capability unsupported c) (c, status))

unfoldable pub declare_unsupported : Dict String → ℕ → List Case → Run
unfolding declare_case
declare_unsupported unsupported status [] = record { cases = []; status = status; raised = none }
declare_unsupported unsupported status (c ∷ cases) =
    let (declared, next) = declare_case unsupported status c in
    let rest = declare_unsupported unsupported next cases in
    record rest { cases = declared ∷ rest.cases }

-- The body of a case, up to its handler.
unfoldable pub try_scenario : Option Failure → ℕ → Case → Outcome
try_scenario none status c = record {
  case = with_status "passed" c;
  status = status;
  raised = none;
}
try_scenario (some f) status c =
    if is_caught f
    then record { case = with_status (failure_status f) c; status = 1; raised = none }
    else record { case = c; status = status; raised = some f }

abbrev pub with_cleanup_error : Case → Case
with_cleanup_error c = record c {
  result = record (c.result) { status = "setup-error"; cleanup_error = some "cleanup failed" };
}

-- The `finally` block of a case: an exception that its handler does not name replaces the one on its way.
unfoldable pub clean_up : Option Failure → Outcome → Outcome
clean_up none o =
    let c = o.case in
    record o { case = record c { result = record (c.result) { cleanup_complete = some true } } }
clean_up (some f) o =
    if is_cleanup_caught f
    then record o { case = with_cleanup_error o.case; status = 1 }
    else record o { raised = some f }

abbrev pub record_case : Option Failure → Outcome → Outcome
record_case none o = o
record_case (some f) o = record o { raised = some f }

unfoldable pub attempt : World → ℕ → Case → Outcome
unfolding try_scenario clean_up
attempt w status c =
    let i = c.result.identity in
    record_case (w.recording i) (clean_up (w.cleanup i) (try_scenario (w.scenario i) status c))

-- The body of the loop over the inventory, for a case that is pending.
unfoldable pub run_case : World → String → Option Failure → ℕ → Case → Outcome
unfolding attempt failure_status
run_case w kind (some f) status c = record {
  case = with_status (failure_status f) c;
  status = 1;
  raised = none;
}
run_case w kind none status c =
    if kind == "library" && w.apis_missing c.result.identity
    then record { case = with_status "unsupported" c; status = 1; raised = none }
    else attempt w status c

abbrev pub awaits : String → Case → Bool
awaits kind c = c.result.driver == kind && is_pending c

unfoldable pub visit : World → String → Option Failure → ℕ → Case → Outcome
unfolding run_case
visit w kind error status c =
    if awaits kind c
    then run_case w kind error status c
    else record { case = c; status = status; raised = none }
