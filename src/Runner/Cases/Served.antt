-- ===== src/Runner/Cases/Served.antt =====
-- The loop over the drivers leaves no case of these drivers pending, unless something is raised.
use flatpak_blackbox_tests.Base.{
  ℕ, String, Bool, true, false, not, ◌&&◌, ◌||◌, Option, none, some, List, [], ◌∷◌, ◌==◌, any, all,
  ◌≡◌, refl, arith, inl, inr, Bool-cases, Option-cases, and_true, true_and, or_false,
}
use flatpak_blackbox_tests.Runner.Failures.{
  Failure, contract_failure, diagnostic_failure, prerequisite_error, unsupported_capability, other,
  type_error, uncaught, failure_status,
}
use flatpak_blackbox_tests.Runner.Attempt.{
  Case, World, Outcome, is_caught, is_cleanup_caught, kept_error, is_pending, try_scenario,
  clean_up, record_case, attempt, run_case, awaits, visit,
}
use flatpak_blackbox_tests.Runner.Cases.{
  run_cases, client_of, run_with, run_kind, run_kinds, is_complete,
}

pub failure_not_pending : (f : Failure) → (failure_status f == "pending") ≡ false
unfolding failure_status
failure_not_pending contract_failure = refl
failure_not_pending diagnostic_failure = refl
failure_not_pending prerequisite_error = refl
failure_not_pending unsupported_capability = refl
failure_not_pending other = refl
failure_not_pending type_error = refl
failure_not_pending uncaught = refl

pub not_of : {b : Bool} → b ≡ false → not b ≡ true
not_of h = rw h refl

-- The driver of a case that is pending is one of these.
abbrev pub is_served : List String → Case → Bool
is_served [] c = not (is_pending c)
is_served (kind ∷ kinds) c = awaits kind c || is_served kinds c

pub served_settled :
    (kinds : List String) (c : Case) → is_pending c ≡ false → is_served kinds c ≡ true
served_settled [] c h = not_of h
served_settled (kind ∷ kinds) c h = let rest = served_settled kinds c h in ground (arith, rest, h)

try_scenario_settles :
    (o : Option Failure) (s : ℕ) (c : Case)
    → (try_scenario o s c).raised ≡ none
    → is_pending (try_scenario o s c).case ≡ false
unfolding try_scenario
try_scenario_settles none s c h = refl
try_scenario_settles (some f) s c h = elim (Bool-cases (is_caught f)) [
  | inl e ↦ rw e (failure_not_pending f)
  | inr e ↦ absurd (cc (rw e at h))
]

clean_up_settles :
    (f : Option Failure) (o : Outcome)
    → (o.raised ≡ none → is_pending o.case ≡ false)
    → (clean_up f o).raised ≡ none
    → is_pending (clean_up f o).case ≡ false
unfolding clean_up
clean_up_settles none o k h = k h
clean_up_settles (some f) o k h = elim (Bool-cases (is_cleanup_caught f)) [
  | inl e ↦ rw e refl
  | inr e ↦ absurd (cc (rw e at h))
]

record_settles :
    (f : Option Failure) (o : Outcome)
    → (o.raised ≡ none → is_pending o.case ≡ false)
    → (record_case f o).raised ≡ none
    → is_pending (record_case f o).case ≡ false
record_settles none o k h = k h
record_settles (some f) o k h = absurd (cc h)

run_case_settles :
    (w : World) (kind : String) (error : Option Failure) (s : ℕ) (c : Case)
    → (run_case w kind error s c).raised ≡ none
    → is_pending (run_case w kind error s c).case ≡ false
unfolding run_case attempt
run_case_settles w kind (some f) s c h = failure_not_pending f
run_case_settles w kind none s c h =
    let i = c.result.identity in
    elim (Bool-cases (kind == "library" && w.apis_missing i)) [
      | inl e ↦ rw e refl
      | inr e ↦ rw e (
          record_settles (w.recording i) _
            (clean_up_settles (w.cleanup i) (try_scenario (w.scenario i) s c)
              (try_scenario_settles (w.scenario i) s c))
            (rw e at h))
    ]

visit_served :
    (w : World) (kind : String) (kinds : List String) (error : Option Failure) (s : ℕ) (c : Case)
    → is_served (kind ∷ kinds) c ≡ true
    → (visit w kind error s c).raised ≡ none
    → is_served kinds (visit w kind error s c).case ≡ true
unfolding visit
visit_served w kind kinds error s c k h = elim (Bool-cases (awaits kind c)) [
  | inl e ↦ rw e (
      served_settled kinds (run_case w kind error s c).case
        (run_case_settles w kind error s c (rw e at h)))
  | inr e ↦ rw e (rw e at k)
]

run_cases_served :
    (w : World) (kind : String) (kinds : List String) (error : Option Failure) (s : ℕ)
    (cases : List Case)
    → all (is_served (kind ∷ kinds)) cases ≡ true
    → (run_cases w kind error s cases).raised ≡ none
    → all (is_served kinds) (run_cases w kind error s cases).cases ≡ true
unfolding run_cases
run_cases_served w kind kinds error s [] k h = refl
run_cases_served w kind kinds error s (c ∷ cases) k h =
    let o = visit w kind error s c in
    let (here, others) = and_true (is_served (kind ∷ kinds) c) _ k in
    elim (Option-cases o.raised) [
      | inr (f, e) ↦ absurd (cc (rw (run_cases, e) at h))
      | inl e ↦
          rw (run_cases, e)
            (true_and (visit_served w kind kinds error s c here e)
              (run_cases_served w kind kinds error o.status cases others (rw (run_cases, e) at h)))
    ]

run_with_served :
    (w : World) (kind : String) (kinds : List String) (s : ℕ) (cases : List Case)
    (o : Option Failure)
    → all (is_served (kind ∷ kinds)) cases ≡ true
    → (run_with w kind s cases o).raised ≡ none
    → all (is_served kinds) (run_with w kind s cases o).cases ≡ true
unfolding run_with
run_with_served w kind kinds s cases none k h = run_cases_served w kind kinds none s cases k h
run_with_served w kind kinds s cases (some f) k h = elim (Option-cases (kept_error f)) [
  | inl e ↦ absurd (cc (rw (run_with, e) at h))
  | inr (error, e) ↦
      rw (run_with, e)
        (run_cases_served w kind kinds (some error) s cases k (rw (run_with, e) at h))
]

none_awaits :
    (kind : String) (kinds : List String) (cases : List Case)
    → all (is_served (kind ∷ kinds)) cases ≡ true
    → any (awaits kind) cases ≡ false
    → all (is_served kinds) cases ≡ true
none_awaits kind kinds [] k h = refl
none_awaits kind kinds (c ∷ cases) k h =
    let (here, others) = and_true (is_served (kind ∷ kinds) c) _ k in
    let (first, rest) = or_false (awaits kind c) _ h in
    true_and (rw first at here) (none_awaits kind kinds cases others rest)

run_kind_served :
    (w : World) (kind : String) (kinds : List String) (s : ℕ) (cases : List Case)
    → all (is_served (kind ∷ kinds)) cases ≡ true
    → (run_kind w kind s cases).raised ≡ none
    → all (is_served kinds) (run_kind w kind s cases).cases ≡ true
unfolding run_kind
run_kind_served w kind kinds s cases k h = elim (Bool-cases (any (awaits kind) cases)) [
  | inl e ↦ rw e (run_with_served w kind kinds s cases (client_of w kind) k (rw e at h))
  | inr e ↦ rw e (none_awaits kind kinds cases k e)
]

pub run_kinds_complete :
    (w : World) (kinds : List String) (s : ℕ) (cases : List Case)
    → all (is_served kinds) cases ≡ true
    → (run_kinds w kinds s cases).raised ≡ none
    → is_complete (run_kinds w kinds s cases).cases ≡ true
unfolding run_kinds
run_kinds_complete w [] s cases k h = k
run_kinds_complete w (kind ∷ kinds) s cases k h =
    let r = run_kind w kind s cases in
    elim (Option-cases r.raised) [
      | inr (f, e) ↦ absurd (cc (rw (run_kinds, e, e) at h))
      | inl e ↦
          rw (run_kinds, e)
            (run_kinds_complete w kinds r.status r.cases (run_kind_served w kind kinds s cases k e)
              (rw (run_kinds, e) at h))
    ]
