-- ===== src/Coverage/Credit.antt =====
-- coverage_report.py: the loop of `summarize` that credits the results of a run.
pub mod Loops
pub mod Exact
use Prim.Native.String.{◌++◌ as ◌<>◌}
use flatpak_blackbox_tests.Base.{
  ℕ, ◌+◌, String, Bool, true, false, not, ◌&&◌, ◌||◌, Option, none, some, List, [], ◌∷◌, ◌++◌, ◌==◌,
  map, if◌then◌else◌, any, contains, add, add_all,
}
use flatpak_blackbox_tests.Base.Dict.{Dict, lookup, insert}
use flatpak_blackbox_tests.Base.Sort.{sorted}
use flatpak_blackbox_tests.Json.Value.{Error, value_error, key_error, Result, ok, err, ◌>>=◌}
use flatpak_blackbox_tests.Coverage.Records.{
  Surface, Requirement, CaseIdentity, CaseDict, case_lookup, EvidenceRecord, CaseResult, RunReport,
  TargetProvenance, case_key, or_empty, is_text,
}
use flatpak_blackbox_tests.Coverage.Options.{invoked_option, command_option}
use flatpak_blackbox_tests.Coverage.Subject.{is_passing}
use flatpak_blackbox_tests.Coverage.Model.{Mapped, CoverageModel, subscript}

pub record Credit : Type 0 where
  pub statuses : Dict ℕ
  pub passed : List String
  pub passed_surfaces : List String
  pub passed_equivalent : List String
  pub evidence : Dict (List CaseIdentity)
  pub interface_evidence : Dict (List CaseIdentity)
  pub equivalent_evidence : Dict (List CaseIdentity)

abbrev pub no_credit : Credit
no_credit = record {
  statuses = [];
  passed = [];
  passed_surfaces = [];
  passed_equivalent = [];
  evidence = [];
  interface_evidence = [];
  equivalent_evidence = [];
}

-- `counter[status] += 1`
abbrev pub count_one : String → Dict ℕ → Dict ℕ
count_one status counts =
    insert status (elim (lookup status counts) [ none ↦ 1 | some n ↦ n + 1 ]) counts

-- `d.setdefault(identifier, []).append(case)`
abbrev pub append_case : String → CaseIdentity → Dict (List CaseIdentity) → Dict (List CaseIdentity)
append_case identifier case d = insert identifier (or_empty (lookup identifier d) ++ case ∷ []) d

abbrev pub nothing_mapped : Mapped
nothing_mapped = record { requirements = []; surface_assertions = []; equivalent_options = [] }

-- `self.mapping.get(case_key(result), set())` and the two dictionaries beside it
unfoldable pub mapped_to : CoverageModel → CaseResult → Mapped
mapped_to m result = elim (case_lookup result.identity m.mapping) [
  | none ↦ nothing_mapped
  | some e ↦ e
]

-- `report["target_provenance"]["cli_path"]`
unfoldable pub cli_path : RunReport → Result String
cli_path report = elim report.target_provenance [
  | none ↦ err (key_error "target_provenance")
  | some target ↦ elim target.cli_path [ none ↦ err (key_error "cli_path") | some path ↦ ok path ]
]

-- `any(invoked_option(...) for record in evidence)`: the path is read for a first record.
unfoldable pub invoked_by : RunReport → List EvidenceRecord → String → String → Result Bool
unfolding cli_path
invoked_by report [] command option = ok false
invoked_by report (r ∷ rest) command option = do
  cli ← cli_path report
  ok (any (λ e. invoked_option e cli command option) (r ∷ rest))

unfoldable pub add_equivalent : RunReport → CaseResult → String → Credit → Result Credit
unfolding invoked_by
add_equivalent report result identifier c = elim (command_option identifier) [
  | none ↦ err (value_error "not enough values to unpack")
  | some p ↦ do
    invoked ← invoked_by report (or_empty result.evidence) p.0 p.1
    ok (
        if invoked
        then record c {
          passed_equivalent = add identifier c.passed_equivalent;
          equivalent_evidence = append_case identifier result.identity c.equivalent_evidence;
        }
        else c)
]

unfoldable pub add_equivalents_of : RunReport → CaseResult → List String → Credit → Result Credit
unfolding add_equivalent
add_equivalents_of report result [] c = ok c
add_equivalents_of report result (i ∷ ids) c = do
  c' ← add_equivalent report result i c
  add_equivalents_of report result ids c'

-- `{prefix + name for command in evidence if it is a library command for name in names(command)}`
unfoldable pub observed :
    String → (EvidenceRecord → Option (List String)) → List EvidenceRecord → List String
observed prefix names [] = []
observed prefix names (command ∷ rest) =
    if is_text "library" command.interface
    then add_all (map (λ n. prefix <> n) (or_empty (names command))) (observed prefix names rest)
    else observed prefix names rest

-- the loop over the mapped requirements, which also collects the surfaces that they assert
unfoldable pub add_requirements :
    Dict Requirement
    → CaseResult
    → List String
    → Credit
    → List String
    → Result (Credit × List String)
add_requirements requirements result [] c asserted = ok (c, asserted)
add_requirements requirements result (i ∷ ids) c asserted = do
  r ← subscript i requirements
  add_requirements requirements result ids
      (record c { passed = add i c.passed; evidence = append_case i result.identity c.evidence })
      (add_all r.surfaces asserted)

-- A function or a signal must have been observed.
abbrev pub is_reached : List String → List String → String → String → Bool
is_reached functions signals surface kind =
    not (kind == "library-function" && not (contains surface functions))
    && not (kind == "library-signal" && not (contains surface signals))

unfoldable pub credited :
    Dict Surface → List String → List String → List String → Result (List String)
credited surfaces functions signals [] = ok []
credited surfaces functions signals (surface ∷ asserted) = do
  s ← subscript surface surfaces
  rest ← credited surfaces functions signals asserted
  ok (if is_reached functions signals surface s.kind then add surface rest else rest)

abbrev pub add_interface_evidence :
    CaseIdentity → List String → Dict (List CaseIdentity) → Dict (List CaseIdentity)
add_interface_evidence case [] d = d
add_interface_evidence case (s ∷ ss) d = add_interface_evidence case ss (append_case s case d)

-- the body of the loop, for a result whose status is `passed`
unfoldable pub credit_passing : CoverageModel → RunReport → CaseResult → Credit → Result Credit
unfolding mapped_to add_equivalents_of add_requirements credited
credit_passing m report result c = do
  let entry = mapped_to m result
  let commands = or_empty result.evidence
  c₁ ← add_equivalents_of report result entry.equivalent_options c
  found ← add_requirements m.requirements result entry.requirements c₁ entry.surface_assertions
  surfaces ←
      credited m.surfaces (observed "library.function." (λ e. e.api_calls) commands)
        (observed "library.signal." (λ e. e.signals) commands) found.1
  ok (record (found.0) {
    passed_surfaces = add_all surfaces found.0.passed_surfaces;
    interface_evidence =
        add_interface_evidence result.identity (sorted surfaces) found.0.interface_evidence;
  })

unfoldable pub credit_result : CoverageModel → RunReport → CaseResult → Credit → Result Credit
unfolding credit_passing is_passing
credit_result m report result c =
    let counted = record c { statuses = count_one result.status c.statuses } in
    if is_passing result then credit_passing m report result counted else ok counted

unfoldable pub credit_results : CoverageModel → RunReport → List CaseResult → Credit → Result Credit
unfolding credit_result
credit_results m report [] c = ok c
credit_results m report (result ∷ rest) c = do
  c' ← credit_result m report result c
  credit_results m report rest c'
