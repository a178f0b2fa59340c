-- ===== src/Runner/Cases/Settled.antt =====
-- If nothing is raised any more at the end, no case is pending.
use flatpak_blackbox_tests.Base.{
  ℕ, String, Bool, true, false, ◌&&◌, ◌||◌, Option, none, some, List, [], ◌∷◌, ◌==◌, any, all,
  contains, ◌≡◌, refl, arith, inl, inr, Bool-cases, Option-cases, and_true, true_and, eq_iff, sym,
}
use flatpak_blackbox_tests.Base.Dict.{Dict}
use flatpak_blackbox_tests.Runner.Failures.{Failure}
use flatpak_blackbox_tests.Runner.Attempt.{
  Case, Arguments, World, Run, is_caught, with_status, is_pending, is_selected, select,
  lacks_capability, needs_machine, refuse, declare_case, declare_unsupported,
}
use flatpak_blackbox_tests.Runner.Cases.{
  drivers_of, settle, unknown_capability, execute_cases, try_cases, handle, handle_raised,
  final_cases, is_complete,
}
use flatpak_blackbox_tests.Runner.Cases.Served.{
  failure_not_pending, not_of, is_served, served_settled, run_kinds_complete,
}

-- The inventory's drivers.
abbrev pub is_driven : Case → Bool
is_driven c = c.result.driver == "cli" || c.result.driver == "library"

is_same : (a b : String) → (a == b) ≡ true → (b == a) ≡ true
is_same a b h = (eq_iff b a).1 (sym ((eq_iff a b).0 h))

named_served :
    (args : Arguments) (c : Case)
    → (args.driver == "all") ≡ false
    → contains args.driver ("all" ∷ c.result.driver ∷ []) ≡ true
    → is_served (args.driver ∷ []) (with_status "pending" c) ≡ true
named_served args c e chosen = elim (Bool-cases (c.result.driver == args.driver)) [
  | inl same ↦ rw same refl
  | inr apart ↦ elim (Bool-cases ("all" == args.driver)) [
    | inl every ↦ absurd (cc (rw (is_same "all" args.driver every) at e))
    | inr named ↦ absurd (cc (rw (named, apart) at chosen))
  ]
]

selected_served :
    (args : Arguments) (c : Case)
    → is_driven c ≡ true
    → is_selected args c ≡ true
    → is_served (drivers_of args) (with_status "pending" c) ≡ true
selected_served args c driven h =
    let (chosen, _) = and_true (contains args.driver ("all" ∷ c.result.driver ∷ [])) _ h in
    elim (Bool-cases (args.driver == "all")) [
      | inl e ↦ rw e (ground (arith, driven))
      | inr e ↦ rw e (named_served args c e chosen)
    ]

select_served :
    (args : Arguments) (cases : List Case)
    → all is_driven cases ≡ true
    → all (is_served (drivers_of args)) (select args cases) ≡ true
unfolding select
select_served args [] k = refl
select_served args (c ∷ cases) k =
    let (driven, others) = and_true (is_driven c) _ k in
    elim (Bool-cases (is_selected args c)) [
      | inl e ↦ rw e (true_and (selected_served args c driven e) (select_served args cases others))
      | inr e ↦ rw e (
          true_and (served_settled (drivers_of args) (with_status "not-selected" c) refl)
            (select_served args cases others))
    ]

refuse_served :
    (kinds : List String) (b : Bool) (c : Case) (s : ℕ)
    → is_served kinds c ≡ true
    → is_served kinds (refuse b (c, s)).0 ≡ true
refuse_served kinds b c s k = elim (Bool-cases (is_pending c && b)) [
  | inl e ↦ rw e (served_settled kinds (with_status "unsupported" c) refl)
  | inr e ↦ rw e k
]

declare_served :
    (kinds : List String) (unsupported : Dict String) (cases : List Case) (s : ℕ)
    → all (is_served kinds) cases ≡ true
    → all (is_served kinds) (declare_unsupported unsupported s cases).cases ≡ true
unfolding declare_unsupported declare_case
declare_served kinds unsupported [] s k = refl
declare_served kinds unsupported (c ∷ cases) s k =
    let (here, others) = and_true (is_served kinds c) _ k in
    let first = refuse (lacks_capability unsupported c) (c, s) in
    true_and
      (refuse_served kinds (needs_machine c) first.0 first.1
        (refuse_served kinds (lacks_capability unsupported c) c s here))
      (declare_served kinds unsupported cases _ others)

execute_complete :
    (w : World) (args : Arguments) (known : List String) (unsupported : Dict String)
    (cases : List Case)
    → all (is_served (drivers_of args)) cases ≡ true
    → (execute_cases w args known unsupported cases).raised ≡ none
    → is_complete (execute_cases w args known unsupported cases).cases ≡ true
unfolding execute_cases
execute_complete w args known unsupported cases k h =
    let declared = declare_unsupported unsupported 0 cases in
    elim (Bool-cases (unknown_capability known unsupported)) [
      | inl e ↦ absurd (cc (rw e at h))
      | inr e ↦ elim (Bool-cases (any is_pending declared.cases)) [
        | inr nothing ↦ absurd (cc (rw (e, nothing) at h))
        | inl something ↦ elim (Option-cases w.preparation) [
          | inr (f, p) ↦ absurd (cc (rw (e, something, p) at h))
          | inl p ↦
              rw (e, something, p)
                (run_kinds_complete w (drivers_of args) declared.status declared.cases
                  (declare_served (drivers_of args) unsupported cases 0 k)
                  (rw (e, something, p) at h))
        ]
      ]
    ]

settle_complete : (f : Failure) (cases : List Case) → is_complete (settle f cases) ≡ true
unfolding settle
settle_complete f [] = refl
settle_complete f (c ∷ cases) = elim (Bool-cases (is_pending c)) [
  | inl pending ↦ rw pending (true_and (not_of (failure_not_pending f)) (settle_complete f cases))
  | inr settled ↦ rw settled (true_and (not_of settled) (settle_complete f cases))
]

handle_complete :
    (r : Run) (o : Option Failure)
    → r.raised ≡ o
    → (r.raised ≡ none → is_complete r.cases ≡ true)
    → (handle_raised r o).raised ≡ none
    → is_complete (handle_raised r o).cases ≡ true
handle_complete r none same k h = k same
handle_complete r (some f) same k h = elim (Bool-cases (is_caught f)) [
  | inl e ↦ rw e (settle_complete f r.cases)
  | inr e ↦ absurd (cc (rw (e, same) at h))
]

try_complete :
    (w : World) (args : Arguments) (known : List String) (unsupported : Dict String)
    (cases : List Case)
    → all (is_served (drivers_of args)) cases ≡ true
    → (try_cases w args known unsupported cases).raised ≡ none
    → is_complete (try_cases w args known unsupported cases).cases ≡ true
unfolding try_cases
try_complete w args known unsupported cases k h = elim (Option-cases w.target) [
  | inr (f, e) ↦ absurd (cc (rw e at h))
  | inl e ↦ rw e (execute_complete w args known unsupported cases k (rw e at h))
]

pub final_complete :
    (w : World) (args : Arguments) (known : List String) (unsupported : Dict String)
    (cases : List Case)
    → all is_driven cases ≡ true
    → (final_cases w args known unsupported cases).raised ≡ none
    → is_complete (final_cases w args known unsupported cases).cases ≡ true
unfolding final_cases handle
final_complete w args known unsupported cases driven h =
    let tried = try_cases w args known unsupported (select args cases) in
    handle_complete tried tried.raised refl
      (try_complete w args known unsupported (select args cases) (select_served args cases driven))
      h
