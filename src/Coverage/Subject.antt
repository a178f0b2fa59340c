-- ===== src/Coverage/Subject.antt =====
-- coverage_report.py: `subject_problem`, the attribution that a passing report must carry.
pub mod Laws
use flatpak_blackbox_tests.Base.{
  ℕ, String, Bool, true, false, not, ◌&&◌, ◌||◌, Option, none, some, List, [], ◌∷◌, ◌==◌, length,
  if◌then◌else◌, any, all, keep, is_empty, all_chars, char_count, leb, eqb, is_some,
}
use flatpak_blackbox_tests.Coverage.Records.{
  CaseIdentity, EvidenceRecord, CaseResult, ArtifactProvenance, TargetProvenance, FixtureProvenance,
  LibraryProvenance, ArtifactIntegrity, RunReport, case_key, or_empty, is_text,
}

-- The sentence that the function returns.
pub data Problem : Type 0 where
  lacks : String → Problem
  lacks_target lacks_adapter lacks_fixture lacks_library unverified : Problem
  no_evidence : CaseIdentity → Problem
  bad_observation no_arguments no_exit no_api_calls no_signals no_interface : Problem

-- `text(value)`
abbrev pub is_filled : Option String → Bool
is_filled none = false
is_filled (some s) = not (is_empty s)

abbrev pub is_hex : ℕ → Bool
is_hex c = leb b'0' c && leb c b'9' || leb b'a' c && leb c b'f'

-- `sha256(value)`
unfoldable pub is_sha256 : Option String → Bool
is_sha256 none = false
is_sha256 (some s) = eqb (char_count s) 64 && all_chars is_hex s

unfoldable pub is_passing : CaseResult → Bool
is_passing result = result.status == "passed"

-- `if bad: return problem`, and on to the next test
abbrev pub unless : Bool → Problem → Option Problem → Option Problem
unless good problem next = if good then next else some problem

unfoldable pub has_target : Option TargetProvenance → Bool
unfolding is_sha256
has_target none = false
has_target (some t) =
    is_filled t.cli_path && (is_sha256 t.configuration_sha256 && is_sha256 t.cli_sha256)

abbrev pub adapter_files : Option TargetProvenance → List ArtifactProvenance
adapter_files none = []
adapter_files (some t) = or_empty t.adapter_files

abbrev pub is_nonempty {ℓ} : {A : Type ℓ} → List A → Bool
is_nonempty [] = false
is_nonempty (x ∷ xs) = true

unfoldable pub has_adapters : List ArtifactProvenance → Bool
unfolding is_sha256
has_adapters files = is_nonempty files && all (λ f. is_filled f.path && is_sha256 f.sha256) files

unfoldable pub has_fixture : Option FixtureProvenance → Bool
unfolding is_sha256
has_fixture none = false
has_fixture (some f) = is_filled f.path && is_sha256 f.manifest_sha256

unfoldable pub has_library : Option LibraryProvenance → Bool
unfolding is_sha256
has_library none = false
has_library (some l) =
    is_filled l.path
    && (is_filled l.package_version && (is_sha256 l.sha256 && is_sha256 l.client_sha256))

unfoldable pub is_verified : Option ArtifactIntegrity → Bool
is_verified none = false
is_verified (some i) = is_text "verified" i.status

-- An observation has its data, and no command line.
unfoldable pub is_observation : EvidenceRecord → Bool
is_observation command =
    is_filled command.observation
    && (is_some command.observed && not (is_some command.argv || is_some command.interface))

abbrev pub has_program : List String → Bool
has_program [] = false
has_program (program ∷ rest) = not (is_empty program)

-- `isinstance(names, list) and all(text(name) for name in names)`
abbrev pub are_names : Option (List String) → Bool
are_names none = false
are_names (some names) = all (λ n. not (is_empty n)) names

unfoldable pub command_problem : EvidenceRecord → Option Problem
unfolding is_observation
command_problem command =
    if is_some command.observation
    then unless (is_observation command) bad_observation none
    else unless (has_program (or_empty command.argv)) no_arguments (
        unless (is_some command.exit_status && (is_some command.stdout && is_some command.stderr))
          no_exit
          (if is_text "library" command.interface
            then unless (are_names command.api_calls) no_api_calls
                (unless (are_names command.signals) no_signals none)
            else none))

-- The first problem in the order of the loop.
abbrev pub first_of : Option Problem → Option Problem → Option Problem
first_of (some p) next = some p
first_of none next = next

unfoldable pub commands_problem : List EvidenceRecord → Option Problem
commands_problem [] = none
commands_problem (command ∷ rest) = first_of (command_problem command) (commands_problem rest)

unfoldable pub case_problem : CaseResult → Option Problem
unfolding commands_problem case_key
case_problem result =
    let commands = or_empty result.evidence in
    unless (is_nonempty commands) (no_evidence (case_key result)) (
      first_of (commands_problem commands)
        (unless (any (λ c. is_text result.driver c.interface) commands) no_interface none))

unfoldable pub cases_problem : List CaseResult → Option Problem
cases_problem [] = none
cases_problem (result ∷ rest) = first_of (case_problem result) (cases_problem rest)

unfoldable pub subject_problem : RunReport → List CaseResult → Option Problem
unfolding is_passing has_target has_adapters has_fixture has_library is_verified
subject_problem report results =
    let passing = keep is_passing results in
    if is_nonempty passing
    then unless (is_filled report.target) (lacks "target") (
        unless (is_filled report.target_version) (lacks "target_version") (
          unless (is_filled report.started_at) (lacks "started_at") (
            unless (is_filled report.finished_at) (lacks "finished_at") (
              unless (has_target report.target_provenance) lacks_target (
                unless (has_adapters (adapter_files report.target_provenance)) lacks_adapter (
                  unless (has_fixture report.fixture_provenance) lacks_fixture (
                    unless
                      (not (any (λ r. r.driver == "library") passing)
                        || has_library report.library_provenance)
                      lacks_library
                      (unless (is_verified report.artifact_integrity) unverified
                        (cases_problem passing)))))))))
    else none
