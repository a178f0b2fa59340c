-- ===== src/Runner/Cases/Status.antt =====
-- As long as `status` is 0, every case is pending, passed or not selected.
use flatpak_blackbox_tests.Base.{
  ℕ, String, Bool, true, ◌&&◌, Option, none, some, List, [], ◌∷◌, ◌==◌, any, all, contains, ◌≡◌,
  refl, inl, inr, Bool-cases, Option-cases, and_true, true_and,
}
use flatpak_blackbox_tests.Base.Dict.{Dict}
use flatpak_blackbox_tests.Runner.Failures.{Failure}
use flatpak_blackbox_tests.Runner.Attempt.{
  Case, Arguments, World, Run, Outcome, is_caught, is_cleanup_caught, kept_error, is_pending,
  is_selected, select, lacks_capability, needs_machine, refuse, declare_case, declare_unsupported,
  try_scenario, clean_up, record_case, attempt, run_case, awaits, visit,
}
use flatpak_blackbox_tests.Runner.Cases.{
  run_cases, client_of, run_with, run_kind, run_kinds, drivers_of, unknown_capability,
  execute_cases, try_cases, handle, handle_raised, final_cases,
}

abbrev pub is_fine : Case → Bool
is_fine c = contains c.result.status ("pending" ∷ "passed" ∷ "not-selected" ∷ [])

-- From status `s` to status `t`: if it is 0 at the end it was at the start, and what held then still holds.
abbrev Keeps : ℕ → Bool → ℕ → Bool → Type 0
Keeps s p t q = t ≡ 0 → (s ≡ 0) × (p ≡ true → q ≡ true)

Keeps-self : {s : ℕ} {p : Bool} → Keeps s p s p
Keeps-self h = (h, λ k. k)

Keeps-one : {s : ℕ} {p q : Bool} → Keeps s p 1 q
Keeps-one h = absurd (cc h)

Keeps-then : {s t u : ℕ} {p q r : Bool} → Keeps s p t q → Keeps t q u r → Keeps s p u r
Keeps-then f g h = let (b, l) = g h in let (a, k) = f b in (a, λ x. l (k x))

Keeps-and :
    {s t u : ℕ} {p q ps qs : Bool} → Keeps s p t q → Keeps t ps u qs → Keeps s (p && ps) u (q && qs)
Keeps-and {s} {t} {u} {p} {q} {ps} {qs} f g h =
    let (b, l) = g h in
    let (a, k) = f b in (a, λ x. let (y, z) = and_true p ps x in true_and (k y) (l z))

refuse-Keeps :
    (b : Bool) (c : Case) (s : ℕ)
    → Keeps s (is_fine c) (refuse b (c, s)).1 (is_fine (refuse b (c, s)).0)
refuse-Keeps b c s = elim (Bool-cases (is_pending c && b)) [
  | inl e ↦ rw e Keeps-one
  | inr e ↦ rw e Keeps-self
]

declare-Keeps :
    (unsupported : Dict String) (s : ℕ) (cases : List Case)
    → Keeps s
        (all is_fine cases)
        (declare_unsupported unsupported s cases).status
        (all is_fine (declare_unsupported unsupported s cases).cases)
unfolding declare_unsupported declare_case
declare-Keeps unsupported s [] = Keeps-self
declare-Keeps unsupported s (c ∷ cases) =
    let first = refuse (lacks_capability unsupported c) (c, s) in
    let second = refuse (needs_machine c) first in
    Keeps-and
      (Keeps-then (refuse-Keeps (lacks_capability unsupported c) c s)
        (refuse-Keeps (needs_machine c) first.0 first.1))
      (declare-Keeps unsupported second.1 cases)

try_scenario-Keeps :
    (o : Option Failure) (s : ℕ) (c : Case)
    → Keeps s (is_fine c) (try_scenario o s c).status (is_fine (try_scenario o s c).case)
unfolding try_scenario
try_scenario-Keeps none s c = λ h. (h, λ k. refl)
try_scenario-Keeps (some f) s c = elim (Bool-cases (is_caught f)) [
  | inl e ↦ rw e Keeps-one
  | inr e ↦ rw e Keeps-self
]

clean_up-Keeps :
    (f : Option Failure) (o : Outcome)
    → Keeps o.status (is_fine o.case) (clean_up f o).status (is_fine (clean_up f o).case)
unfolding clean_up
clean_up-Keeps none o = Keeps-self
clean_up-Keeps (some f) o = elim (Bool-cases (is_cleanup_caught f)) [
  | inl e ↦ rw e Keeps-one
  | inr e ↦ rw e Keeps-self
]

record-Keeps :
    (f : Option Failure) (o : Outcome)
    → Keeps o.status (is_fine o.case) (record_case f o).status (is_fine (record_case f o).case)
record-Keeps none o = Keeps-self
record-Keeps (some f) o = Keeps-self

attempt-Keeps :
    (w : World) (s : ℕ) (c : Case)
    → Keeps s (is_fine c) (attempt w s c).status (is_fine (attempt w s c).case)
unfolding attempt
attempt-Keeps w s c =
    let i = c.result.identity in
    let tried = try_scenario (w.scenario i) s c in
    Keeps-then (try_scenario-Keeps (w.scenario i) s c) (
      Keeps-then (clean_up-Keeps (w.cleanup i) tried)
        (record-Keeps (w.recording i) (clean_up (w.cleanup i) tried)))

run_case-Keeps :
    (w : World) (kind : String) (error : Option Failure) (s : ℕ) (c : Case)
    → Keeps s
        (is_fine c)
        (run_case w kind error s c).status
        (is_fine (run_case w kind error s c).case)
unfolding run_case
run_case-Keeps w kind (some f) s c = Keeps-one
run_case-Keeps w kind none s c =
    elim (Bool-cases (kind == "library" && w.apis_missing c.result.identity)) [
      | inl e ↦ rw e Keeps-one
      | inr e ↦ rw e (attempt-Keeps w s c)
    ]

visit-Keeps :
    (w : World) (kind : String) (error : Option Failure) (s : ℕ) (c : Case)
    → Keeps s (is_fine c) (visit w kind error s c).status (is_fine (visit w kind error s c).case)
unfolding visit
visit-Keeps w kind error s c = elim (Bool-cases (awaits kind c)) [
  | inl e ↦ rw e (run_case-Keeps w kind error s c)
  | inr e ↦ rw e Keeps-self
]

abbrev KeepsRun : ℕ → List Case → Run → Type 0
KeepsRun s cases r = Keeps s (all is_fine cases) r.status (all is_fine r.cases)

run_cases_keeps :
    (w : World) (kind : String) (error : Option Failure) (s : ℕ) (cases : List Case)
    → KeepsRun s cases (run_cases w kind error s cases)
unfolding run_cases
run_cases_keeps w kind error s [] = Keeps-self
run_cases_keeps w kind error s (c ∷ cases) =
    let o = visit w kind error s c in
    elim (Option-cases o.raised) [
      | inr (f, e) ↦ rw (run_cases, e) (Keeps-and (visit-Keeps w kind error s c) Keeps-self)
      | inl e ↦
          rw (run_cases, e)
            (Keeps-and (visit-Keeps w kind error s c) (run_cases_keeps w kind error o.status cases))
    ]

run_with_keeps :
    (w : World) (kind : String) (s : ℕ) (cases : List Case) (o : Option Failure)
    → KeepsRun s cases (run_with w kind s cases o)
unfolding run_with
run_with_keeps w kind s cases none = run_cases_keeps w kind none s cases
run_with_keeps w kind s cases (some f) = elim (Option-cases (kept_error f)) [
  | inl e ↦ rw (run_with, e) Keeps-self
  | inr (error, e) ↦ rw (run_with, e) (run_cases_keeps w kind (some error) s cases)
]

run_kind_keeps :
    (w : World) (kind : String) (s : ℕ) (cases : List Case)
    → KeepsRun s cases (run_kind w kind s cases)
unfolding run_kind
run_kind_keeps w kind s cases = elim (Bool-cases (any (awaits kind) cases)) [
  | inl e ↦ rw e (run_with_keeps w kind s cases (client_of w kind))
  | inr e ↦ rw e Keeps-self
]

run_kinds_keeps :
    (w : World) (kinds : List String) (s : ℕ) (cases : List Case)
    → KeepsRun s cases (run_kinds w kinds s cases)
unfolding run_kinds
run_kinds_keeps w [] s cases = Keeps-self
run_kinds_keeps w (kind ∷ kinds) s cases =
    let r = run_kind w kind s cases in
    elim (Option-cases r.raised) [
      | inr (f, e) ↦ rw (run_kinds, e) (run_kind_keeps w kind s cases)
      | inl e ↦
          rw (run_kinds, e)
            (Keeps-then (run_kind_keeps w kind s cases) (run_kinds_keeps w kinds r.status r.cases))
    ]

execute_keeps :
    (w : World) (args : Arguments) (known : List String) (unsupported : Dict String)
    (cases : List Case)
    → KeepsRun 0 cases (execute_cases w args known unsupported cases)
unfolding execute_cases
execute_keeps w args known unsupported cases =
    let declared = declare_unsupported unsupported 0 cases in
    let start = declare-Keeps unsupported 0 cases in
    elim (Bool-cases (unknown_capability known unsupported)) [
      | inl e ↦ rw e Keeps-self
      | inr e ↦ elim (Bool-cases (any is_pending declared.cases)) [
        | inr nothing ↦ rw (e, nothing) start
        | inl something ↦ elim (Option-cases w.preparation) [
          | inr (f, p) ↦ rw (e, something, p) start
          | inl p ↦
              rw (e, something, p)
                (Keeps-then start
                  (run_kinds_keeps w (drivers_of args) declared.status declared.cases))
        ]
      ]
    ]

try_keeps :
    (w : World) (args : Arguments) (known : List String) (unsupported : Dict String)
    (cases : List Case)
    → KeepsRun 0 cases (try_cases w args known unsupported cases)
unfolding try_cases
try_keeps w args known unsupported cases = elim (Option-cases w.target) [
  | inr (f, e) ↦ rw e Keeps-self
  | inl e ↦ rw e (execute_keeps w args known unsupported cases)
]

handle-Keeps :
    (r : Run) (o : Option Failure)
    → Keeps r.status
        (all is_fine r.cases)
        (handle_raised r o).status
        (all is_fine (handle_raised r o).cases)
handle-Keeps r none = Keeps-self
handle-Keeps r (some f) = elim (Bool-cases (is_caught f)) [
  | inl e ↦ rw e Keeps-one
  | inr e ↦ rw e Keeps-self
]

select_fine : (args : Arguments) (cases : List Case) → all is_fine (select args cases) ≡ true
unfolding select
select_fine args [] = refl
select_fine args (c ∷ cases) = elim (Bool-cases (is_selected args c)) [
  | inl e ↦ rw e (select_fine args cases)
  | inr e ↦ rw e (select_fine args cases)
]

pub final_fine :
    (w : World) (args : Arguments) (known : List String) (unsupported : Dict String)
    (cases : List Case)
    → (final_cases w args known unsupported cases).status ≡ 0
    → all is_fine (final_cases w args known unsupported cases).cases ≡ true
unfolding final_cases handle
final_fine w args known unsupported cases h =
    let tried = try_cases w args known unsupported (select args cases) in
    let all_kept =
      Keeps-then (try_keeps w args known unsupported (select args cases))
        (handle-Keeps tried tried.raised) in
    (all_kept h).1 (select_fine args cases)
