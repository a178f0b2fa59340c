-- ===== src/Runner/Cases/Handled.antt =====
-- If a run meets only exceptions of the classes that its handlers name, none is left at its end.
use flatpak_blackbox_tests.Base.{
  ℕ, String, true, ◌&&◌, Option, none, some, List, [], ◌∷◌, ◌==◌, any, ◌≡◌, refl, subst, inl, inr,
  Bool-cases, Option-cases,
}
use flatpak_blackbox_tests.Base.Dict.{Dict}
use flatpak_blackbox_tests.Coverage.Records.{CaseIdentity}
use flatpak_blackbox_tests.Runner.Failures.{Failure}
use flatpak_blackbox_tests.Runner.Attempt.{
  Case, Arguments, World, Run, Outcome, is_caught, is_cleanup_caught, kept_error, is_pending,
  select, declare_unsupported, try_scenario, clean_up, record_case, attempt, run_case, awaits,
  visit,
}
use flatpak_blackbox_tests.Runner.Cases.{
  run_cases, client_of, run_with, run_kind, run_kinds, drivers_of, unknown_capability,
  execute_cases, try_cases, handle, handle_raised, final_cases,
}

-- An exception, where there is one, is of a class that the handlers name.
abbrev pub IsCaught : Option Failure → Type 0
IsCaught none = Unit
IsCaught (some f) = is_caught f ≡ true

pub record IsHandled (w : World) : Type 0 where
  pub target : IsCaught w.target
  pub preparation : IsCaught w.preparation
  pub client : IsCaught w.client
  pub scenario : (i : CaseIdentity) → IsCaught (w.scenario i)
  pub cleanup : (i : CaseIdentity) → IsCaught (w.cleanup i)
  pub recording : (i : CaseIdentity) → IsCaught (w.recording i)

caught_some : {f : Failure} (o : Option Failure) → o ≡ some f → IsCaught o → is_caught f ≡ true
caught_some o e h = subst IsCaught e h

try_scenario_caught :
    (o : Option Failure) (s : ℕ) (c : Case) → IsCaught o → IsCaught (try_scenario o s c).raised
unfolding try_scenario
try_scenario_caught none s c h = tt
try_scenario_caught (some f) s c h = rw h tt

clean_up_caught :
    (f : Option Failure) (o : Outcome)
    → IsCaught f
    → IsCaught o.raised
    → IsCaught (clean_up f o).raised
unfolding clean_up
clean_up_caught none o h k = k
clean_up_caught (some f) o h k = elim (Bool-cases (is_cleanup_caught f)) [
  | inl e ↦ rw e k
  | inr e ↦ rw e h
]

record_caught :
    (f : Option Failure) (o : Outcome)
    → IsCaught f
    → IsCaught o.raised
    → IsCaught (record_case f o).raised
record_caught none o h k = k
record_caught (some f) o h k = h

module _ (w : World) (handled : IsHandled w) where
  run_case_caught :
      (kind : String) (error : Option Failure) (s : ℕ) (c : Case)
      → IsCaught (run_case w kind error s c).raised
  unfolding run_case attempt
  run_case_caught kind (some f) s c = tt
  run_case_caught kind none s c =
      let i = c.result.identity in
      elim (Bool-cases (kind == "library" && w.apis_missing i)) [
        | inl e ↦ rw e tt
        | inr e ↦ rw e (
            record_caught (w.recording i) _ (handled.recording i) (
              clean_up_caught (w.cleanup i) (try_scenario (w.scenario i) s c) (handled.cleanup i)
                (try_scenario_caught (w.scenario i) s c (handled.scenario i))))
      ]

  visit_caught :
      (kind : String) (error : Option Failure) (s : ℕ) (c : Case)
      → IsCaught (visit w kind error s c).raised
  unfolding visit
  visit_caught kind error s c = elim (Bool-cases (awaits kind c)) [
    | inl e ↦ rw e (run_case_caught kind error s c)
    | inr e ↦ rw e tt
  ]

  run_cases_caught :
      (kind : String) (error : Option Failure) (s : ℕ) (cases : List Case)
      → IsCaught (run_cases w kind error s cases).raised
  unfolding run_cases
  run_cases_caught kind error s [] = tt
  run_cases_caught kind error s (c ∷ cases) =
      let o = visit w kind error s c in
      elim (Option-cases o.raised) [
        | inr (f, e) ↦ rw (run_cases, e) (caught_some o.raised e (visit_caught kind error s c))
        | inl e ↦ rw (run_cases, e) (run_cases_caught kind error o.status cases)
      ]

  run_with_caught :
      (kind : String) (s : ℕ) (cases : List Case) (o : Option Failure)
      → IsCaught o
      → IsCaught (run_with w kind s cases o).raised
  unfolding run_with
  run_with_caught kind s cases none h = run_cases_caught kind none s cases
  run_with_caught kind s cases (some f) h = elim (Option-cases (kept_error f)) [
    | inl e ↦ rw (run_with, e) h
    | inr (error, e) ↦ rw (run_with, e) (run_cases_caught kind (some error) s cases)
  ]

  client_caught : (kind : String) → IsCaught (client_of w kind)
  client_caught kind = elim (Bool-cases (kind == "library")) [
    | inl e ↦ rw (client_of, e) handled.client
    | inr e ↦ rw (client_of, e) tt
  ]

  run_kind_caught :
      (kind : String) (s : ℕ) (cases : List Case) → IsCaught (run_kind w kind s cases).raised
  unfolding run_kind
  run_kind_caught kind s cases = elim (Bool-cases (any (awaits kind) cases)) [
    | inl e ↦ rw e (run_with_caught kind s cases (client_of w kind) (client_caught kind))
    | inr e ↦ rw e tt
  ]

  run_kinds_caught :
      (kinds : List String) (s : ℕ) (cases : List Case)
      → IsCaught (run_kinds w kinds s cases).raised
  unfolding run_kinds
  run_kinds_caught [] s cases = tt
  run_kinds_caught (kind ∷ kinds) s cases =
      let r = run_kind w kind s cases in
      elim (Option-cases r.raised) [
        | inr (f, e) ↦ rw (run_kinds, e) (run_kind_caught kind s cases)
        | inl e ↦ rw (run_kinds, e) (run_kinds_caught kinds r.status r.cases)
      ]

  try_caught :
      (args : Arguments) (known : List String) (unsupported : Dict String) (cases : List Case)
      → IsCaught (try_cases w args known unsupported cases).raised
  unfolding try_cases execute_cases is_caught
  try_caught args known unsupported cases =
      let declared = declare_unsupported unsupported 0 cases in
      elim (Option-cases w.target) [
        | inr (f, e) ↦ rw e (caught_some w.target e handled.target)
        | inl e ↦ elim (Bool-cases (unknown_capability known unsupported)) [
          | inl e₁ ↦ rw (e, e₁) refl
          | inr e₁ ↦ elim (Bool-cases (any is_pending declared.cases)) [
            | inr nothing ↦ rw (e, e₁, nothing) refl
            | inl something ↦ elim (Option-cases w.preparation) [
              | inr (f, p) ↦
                  rw (e, e₁, something, p) (caught_some w.preparation p handled.preparation)
              | inl p ↦
                  rw (e, e₁, something, p)
                    (run_kinds_caught (drivers_of args) declared.status declared.cases)
            ]
          ]
        ]
      ]

  handle_caught :
      (r : Run) (o : Option Failure) → r.raised ≡ o → IsCaught o → (handle_raised r o).raised ≡ none
  handle_caught r none same h = same
  handle_caught r (some f) same h = rw h refl

  pub final_caught :
      (args : Arguments) (known : List String) (unsupported : Dict String) (cases : List Case)
      → (final_cases w args known unsupported cases).raised ≡ none
  unfolding final_cases handle
  final_caught args known unsupported cases =
      let tried = try_cases w args known unsupported (select args cases) in
      handle_caught tried tried.raised refl (try_caught args known unsupported (select args cases))
