-- ===== src/Coverage/Subject/Laws.antt =====
-- What a report without a subject problem carries.
use flatpak_blackbox_tests.Base.{
  Bool, true, false, not, ◌&&◌, ◌||◌, Option, none, some, List, [], ◌∷◌, ◌==◌, any, keep, is_some,
  ◌≡◌, refl, arith, All, Bool-cases, inl, inr, ◌⊎◌,
}
use flatpak_blackbox_tests.Coverage.Records.{
  EvidenceRecord, CaseResult, RunReport, or_empty, is_text,
}
use flatpak_blackbox_tests.Coverage.Subject.{
  Problem, is_filled, is_passing, unless, has_target, adapter_files, is_nonempty, has_adapters,
  has_fixture, has_library, is_verified, is_observation, has_program, are_names, command_problem,
  first_of, commands_problem, case_problem, cases_problem, subject_problem,
}

-- A record that credits a command: a supplemental observation, or a command line with its result.
abbrev pub IsSound : EvidenceRecord → Type 0
IsSound c =
    (is_observation c ≡ true)
    ⊎ ((has_program (or_empty c.argv) ≡ true)
        × (is_some c.exit_status ≡ true)
        × (is_some c.stdout ≡ true)
        × (is_some c.stderr ≡ true)
        × (is_text "library" c.interface ≡ true
            → (are_names c.api_calls ≡ true) × (are_names c.signals ≡ true)))

-- Sound evidence throughout, some of it at the interface that the case declares.
pub record IsAttributed (r : CaseResult) : Type 0 where
  pub sound : All IsSound (or_empty r.evidence)
  pub at_interface : any (λ c. is_text r.driver c.interface) (or_empty r.evidence) ≡ true

unless-none :
    (good : Bool) (p : Problem) (next : Option Problem)
    → unless good p next ≡ none
    → (good ≡ true) × (next ≡ none)
unless-none true p next h = (refl, h)
unless-none false p next h = cc

first_of-none : (a b : Option Problem) → first_of a b ≡ none → (a ≡ none) × (b ≡ none)
first_of-none none b h = (refl, h)
first_of-none (some p) b h = cc

command-IsSound : (c : EvidenceRecord) → command_problem c ≡ none → IsSound c
unfolding command_problem
command-IsSound c h = elim (Bool-cases (is_some c.observation)) [
  | inl extra ↦ inl (unless-none (is_observation c) _ _ (rw extra at h)).0
  | inr plain ↦
      let (program, h₁) = unless-none (has_program (or_empty c.argv)) _ _ (rw plain at h) in
      let (result, h₂) =
        unless-none (is_some c.exit_status && (is_some c.stdout && is_some c.stderr)) _ _ h₁ in
      inr (program, ground arith, ground arith, ground arith, λ lib. (ground arith, ground arith))
]

commands-IsSound : (cs : List EvidenceRecord) → commands_problem cs ≡ none → All IsSound cs
unfolding commands_problem
commands-IsSound [] h = tt
commands-IsSound (c ∷ cs) h =
    let (here, rest) = first_of-none (command_problem c) (commands_problem cs) h in
    (command-IsSound c here, commands-IsSound cs rest)

case-IsAttributed : (r : CaseResult) → case_problem r ≡ none → IsAttributed r
unfolding case_problem
case-IsAttributed r h =
    let (_, h₁) = unless-none (is_nonempty (or_empty r.evidence)) _ _ h in
    let (sound, h₂) = first_of-none (commands_problem (or_empty r.evidence)) _ h₁ in
    record {
      sound = commands-IsSound (or_empty r.evidence) sound;
      at_interface =
          (unless-none (any (λ c. is_text r.driver c.interface) (or_empty r.evidence)) _ _ h₂).0;
    }

not_or : (a b : Bool) → (not a || b) ≡ true → a ≡ true → b ≡ true
not_or a b h k = ground arith

-- Every passing case among `results`.
abbrev pub AllPassing : (CaseResult → Type 0) → List CaseResult → Type 0
AllPassing P results = All (λ r. is_passing r ≡ true → P r) results

cases-IsAttributed :
    (rs : List CaseResult) → cases_problem (keep is_passing rs) ≡ none → AllPassing IsAttributed rs
unfolding cases_problem
cases-IsAttributed [] h = tt
cases-IsAttributed (r ∷ rs) h = elim (Bool-cases (is_passing r)) [
  | inl pass ↦
      let (here, rest) =
        first_of-none (case_problem r) (cases_problem (keep is_passing rs)) (rw pass at h) in
      (λ _. case-IsAttributed r here, cases-IsAttributed rs rest)
  | inr other ↦ (λ pass. absurd (ground arith), cases-IsAttributed rs (rw other at h))
]

-- The target, the adapter, the fixture and the artifacts, as a passing report must record them.
pub record HasSubject (report : RunReport) : Type 0 where
  pub target : is_filled report.target ≡ true
  pub target_version : is_filled report.target_version ≡ true
  pub started_at : is_filled report.started_at ≡ true
  pub finished_at : is_filled report.finished_at ≡ true
  pub provenance : has_target report.target_provenance ≡ true
  pub adapters : has_adapters (adapter_files report.target_provenance) ≡ true
  pub fixture : has_fixture report.fixture_provenance ≡ true
  pub integrity : is_verified report.artifact_integrity ≡ true

abbrev pub HasPassing : List CaseResult → Type 0
HasPassing results = is_nonempty (keep is_passing results) ≡ true

-- If some case passed and no problem is found, then the report records the target, its adapters, the
-- fixture and verified artifacts; it records the library, if a library case passed; and every
-- passing case has sound evidence, some of it at its own interface.
pub subject_problem-none :
    (report : RunReport) (results : List CaseResult)
    → HasPassing results
    → subject_problem report results ≡ none
    → HasSubject report
      × (any (λ r. r.driver == "library") (keep is_passing results) ≡ true
          → has_library report.library_provenance ≡ true)
      × AllPassing IsAttributed results
unfolding subject_problem
subject_problem-none report results passing h =
    let (a, h₁) = unless-none (is_filled report.target) _ _ (rw passing at h) in
    let (b, h₂) = unless-none (is_filled report.target_version) _ _ h₁ in
    let (c, h₃) = unless-none (is_filled report.started_at) _ _ h₂ in
    let (d, h₄) = unless-none (is_filled report.finished_at) _ _ h₃ in
    let (e, h₅) = unless-none (has_target report.target_provenance) _ _ h₄ in
    let (f, h₆) = unless-none (has_adapters (adapter_files report.target_provenance)) _ _ h₅ in
    let (g, h₇) = unless-none (has_fixture report.fixture_provenance) _ _ h₆ in
    let library = any (λ r. r.driver == "library") (keep is_passing results) in
    let (l, h₈) = unless-none (not library || has_library report.library_provenance) _ _ h₇ in
    let (i, h₉) = unless-none (is_verified report.artifact_integrity) _ _ h₈ in
    (
      record {
        target = a;
        target_version = b;
        started_at = c;
        finished_at = d;
        provenance = e;
        adapters = f;
        fixture = g;
        integrity = i;
      },
      λ needed. not_or library (has_library report.library_provenance) l needed,
      cases-IsAttributed results h₉,
    )
