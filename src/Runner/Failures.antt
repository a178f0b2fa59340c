-- ===== src/Runner/Failures.antt =====
-- run.py: the runner's exceptions, `failure_status`, `expected_scenario_failures_only` and `check_artifacts`.
pub mod Forgivable
pub mod Laws
use flatpak_blackbox_tests.Base.{
  ℕ, String, Bool, true, false, not, ◌&&◌, ◌||◌, Option, none, some, List, [], ◌∷◌, ◌==◌,
  if◌then◌else◌, any, all, eqb, contains, starts_with, is_some,
}
use flatpak_blackbox_tests.Base.Dict.{Dict}
use flatpak_blackbox_tests.Coverage.Records.{
  CaseResult, ArtifactIntegrity, RunReport, or_empty, is_true, is_text,
}
use flatpak_blackbox_tests.Coverage.Subject.{is_verified}

-- The classes of exceptions: `DiagnosticFailure` is a subclass of `ContractFailure`; `other` is an OSError, a ValueError
-- or a KeyError; `uncaught` is any class that no handler names, such as AssertionError or KeyboardInterrupt.
pub data Failure : Type 0 where
  contract_failure diagnostic_failure prerequisite_error unsupported_capability : Failure
  other type_error uncaught : Failure

unfoldable pub failure_status : Failure → String
failure_status diagnostic_failure = "setup-error"
failure_status prerequisite_error = "unmet-prerequisite"
failure_status unsupported_capability = "unsupported"
failure_status contract_failure = "failed"
failure_status other = "setup-error"
failure_status type_error = "setup-error"
failure_status uncaught = "setup-error"

abbrev pub security_sensitive_prefixes : List String
security_sensitive_prefixes =
    "auth." ∷ "remote-auth." ∷ "multiuser.auth-" ∷ "sandbox." ∷ "oci-signatures." ∷ []

unfoldable pub is_security_sensitive : CaseResult → Bool
is_security_sensitive r =
    any (λ p. starts_with r.behavior_id p) security_sensitive_prefixes
    || r.behavior_id == "transaction.pre-auth"

abbrev pub is_failed : CaseResult → Bool
is_failed r = r.status == "failed"

abbrev pub settled_statuses : List String
settled_statuses = "passed" ∷ "failed" ∷ "not-selected" ∷ []

-- `coverage` is `report["coverage"]["verification"]["status"]`, if the report has it.
unfoldable pub expected_scenario_failures_only : RunReport → Option String → ℕ → Bool → Bool
unfolding is_security_sensitive
expected_scenario_failures_only report coverage status summary_delivered =
    let results = or_empty report.results in
    eqb status 1
    && (summary_delivered
        && (is_true report.complete
            && (not (is_some report.setup_error)
                && (any is_failed results
                    && (not (any (λ r. is_failed r && is_security_sensitive r) results)
                        && (all (λ r. contains r.status settled_statuses) results
                            && (is_verified report.artifact_integrity
                                && is_text "current" coverage)))))))

-- `digest_of` reads a file: `none` stands for an `OSError`.
module _ (digest_of : String → Option String) where
  abbrev pub is_unchanged : String → String → Bool
  is_unchanged path expected = is_text expected (digest_of path)

  unfoldable pub changed_paths_of : Dict String → List String
  changed_paths_of [] = []
  changed_paths_of ((path, expected) ∷ artifacts) =
      let rest = changed_paths_of artifacts in
      if is_unchanged path expected then rest else path ∷ rest

  abbrev pub integrity_status : List String → String
  integrity_status [] = "verified"
  integrity_status (path ∷ changed) = "changed"

  unfoldable pub check_artifacts : Dict String → ArtifactIntegrity
  unfolding changed_paths_of
  check_artifacts artifacts =
      let changed = changed_paths_of artifacts in
      record { status = some (integrity_status changed); changed_paths = some changed }
