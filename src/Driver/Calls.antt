-- ===== src/Driver/Calls.antt =====
-- run.py: `execute`, and the methods of `Driver` that run a command.
use flatpak_blackbox_tests.Base.{
  String, Bool, false, ◌&&◌, none, some, List, [], ◌∷◌, ◌++◌, ◌==◌, if◌then◌else◌, contains,
  ends_with, map, eqb,
}
use flatpak_blackbox_tests.Base.Int.{ℤ, pos, ltb_ℤ}
use flatpak_blackbox_tests.Base.Words.{strip}
use flatpak_blackbox_tests.Coverage.Records.{EvidenceRecord}
use flatpak_blackbox_tests.Runner.Failures.{diagnostic_failure, prerequisite_error, other}
use flatpak_blackbox_tests.Driver.Text.{marked_lines}
use flatpak_blackbox_tests.Driver.Commands.{argv_of, interface_of}
use flatpak_blackbox_tests.Driver.{
  Request, Completed, Ran, not_found, timed_out, exited, Reply, Repository, Outcome, returned,
  raised, Driver, Script, ◌>>=◌, ◌>>◌, give, raise, require,
}

-- `do_GET`: a request, as the repository records it
abbrev pub request_of : Repository → String → Request
request_of r path = record {
  path = path;
  version = r.version;
  blocked = r.fail_payloads && ends_with path ".filez";
}

-- `{"argv": argv}`
abbrev pub fresh_record : List String → EvidenceRecord
fresh_record argv = record {
  argv = some argv;
  cli_argv = none;
  interface = none;
  exit_status = none;
  stdout = none;
  stderr = none;
  api_calls = none;
  signals = none;
  observation = none;
  observed = none;
}

abbrev pub with_end : Completed → EvidenceRecord → EvidenceRecord
with_end c r = record r {
  stdout = some c.stdout;
  stderr = some c.stderr;
  exit_status = some c.returncode;
}

abbrev pub recorded : List String → Ran → EvidenceRecord
recorded argv not_found = fresh_record argv
recorded argv (timed_out c) = with_end c (fresh_record argv)
recorded argv (exited c) = with_end c (fresh_record argv)

abbrev pub outcome_of_run : Ran → Outcome Completed
outcome_of_run not_found = raised prerequisite_error
outcome_of_run (timed_out c) = raised diagnostic_failure
outcome_of_run (exited c) = returned c

-- `is_zero(result.returncode)`
abbrev pub is_zero : ℤ → Bool
is_zero (pos n) = eqb n 0
is_zero _ = false

abbrev pub is_positive : ℤ → Bool
is_positive n = ltb_ℤ (pos 0) n

-- `record["interface"] = interface`, and what the library's client reports on its calls
abbrev pub attribute : String → Completed → EvidenceRecord → EvidenceRecord
attribute interface c r =
    if interface == "setup"
    then r
    else if interface == "library"
    then record r {
      interface = some interface;
      api_calls = some (marked_lines "api-call " c.stderr);
      signals = some (marked_lines "signal-event " c.stderr);
    }
    else record r { interface = some interface }

-- `evidence[-1]` is changed in place.
abbrev pub update_last :
    (EvidenceRecord → EvidenceRecord) → List EvidenceRecord → List EvidenceRecord
update_last f [] = []
update_last f (r ∷ []) = f r ∷ []
update_last f (r ∷ s ∷ rs) = r ∷ update_last f (s ∷ rs)

module _ {S : Type 0} (exec : List String → Repository → S → Reply S) where
  unfoldable pub execute : List String → Script S Completed
  execute argv w =
      let reply = exec argv w.repository w.target in
      (
        outcome_of_run reply.ran,
        record w {
          target = reply.after;
          requests = w.requests ++ map (request_of w.repository) reply.paths;
          evidence = w.evidence ++ recorded argv reply.ran ∷ [];
        },
      )

  abbrev pub attribute_last : String → Completed → Script S (Unit {0})
  attribute_last interface c w =
      (returned tt, record w { evidence = update_last (attribute interface c) w.evidence })

  unfoldable pub external_call : List String → String → Script S Completed
  unfolding execute
  external_call argv interface =
      if contains interface ("cli" ∷ "library" ∷ "setup" ∷ [])
      then (do result ← execute argv; attribute_last interface result; give result)
      else raise other

  module _ (d : Driver) where
    unfoldable pub cli_call : List String → Script S Completed
    unfolding external_call
    cli_call arguments = external_call (d.cli ∷ arguments) "cli"

    unfoldable pub cli_success : List String → Script S String
    unfolding cli_call require
    cli_success arguments = do
      result ← cli_call arguments
      require (is_zero result.returncode)
      give (strip result.stdout)

    unfoldable pub setup_cli_success : List String → Script S String
    unfolding cli_call
    setup_cli_success arguments = do
      result ← cli_call arguments
      if is_zero result.returncode then give (strip result.stdout) else raise diagnostic_failure

    abbrev pub call_argv : Outcome (List String) → String → Script S Completed
    call_argv (raised f) interface = raise f
    call_argv (returned argv) interface = external_call argv interface

    unfoldable pub call : String → List String → Script S Completed
    unfolding external_call
    call operation arguments = call_argv (argv_of d operation arguments) (interface_of d operation)

    unfoldable pub success : String → List String → Script S String
    unfolding require
    success operation arguments = do
      result ← call operation arguments
      require (is_zero result.returncode)
      give (strip result.stdout)

    unfoldable pub setup_success : String → List String → Script S String
    setup_success operation arguments = do
      result ← call operation arguments
      if is_zero result.returncode then give (strip result.stdout) else raise diagnostic_failure
