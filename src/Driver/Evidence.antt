-- ===== src/Driver/Evidence.antt =====
-- What a scenario that returns has recorded: evidence that the coverage report accepts.
use flatpak_blackbox_tests.Base.{
  String, Bool, true, false, not, ◌||◌, none, some, List, [], ◌∷◌, ◌++◌, ◌==◌, any, all, is_empty,
  ◌≡◌, refl, ap, inl, inr, arith, Bool-cases, Option-cases,
}
use flatpak_blackbox_tests.Coverage.Records.{EvidenceRecord}
use flatpak_blackbox_tests.Coverage.Subject.{command_problem, commands_problem, has_program}
use flatpak_blackbox_tests.Driver.Text.{marked_lines}
use flatpak_blackbox_tests.Driver.{Completed}
use flatpak_blackbox_tests.Driver.Calls.{fresh_record, with_end, attribute, update_last}

pub commands_problem-append :
    (rs : List EvidenceRecord) (r : EvidenceRecord)
    → commands_problem rs ≡ none
    → command_problem r ≡ none
    → commands_problem (rs ++ r ∷ []) ≡ none
unfolding commands_problem
commands_problem-append [] r h k = rw k refl
commands_problem-append (s ∷ rs) r h k = elim (Option-cases (command_problem s)) [
  | inl e ↦ rw e (commands_problem-append rs r (rw e at h) k)
  | inr (p, e) ↦ absurd (cc (rw e at h))
]

pub update_last-append :
    (f : EvidenceRecord → EvidenceRecord) (rs : List EvidenceRecord) (r : EvidenceRecord)
    → update_last f (rs ++ r ∷ []) ≡ rs ++ f r ∷ []
update_last-append f [] r = refl
update_last-append f (s ∷ []) r = refl
update_last-append f (s ∷ t ∷ rs) r = ap (λ l. s ∷ l) (update_last-append f (t ∷ rs) r)

pub any-append :
    (p : EvidenceRecord → Bool) (rs : List EvidenceRecord) (r : EvidenceRecord)
    → any p (rs ++ r ∷ []) ≡ (any p rs || p r)
any-append p [] r = ground arith
any-append p (s ∷ rs) r = ground (arith, any-append p rs r)

abbrev are_filled : List String → Bool
are_filled names = all (λ n. not (is_empty n)) names

-- The marks of a client's diagnostics that it makes itself are names.
abbrev pub IsLegible : Completed → Type 0
IsLegible c =
    (are_filled (marked_lines "api-call " c.stderr) ≡ true)
    × (are_filled (marked_lines "signal-event " c.stderr) ≡ true)

pub attribute_lem :
    (argv : List String) (interface : String) (c : Completed)
    → has_program argv ≡ true
    → IsLegible c
    → command_problem (attribute interface c (with_end c (fresh_record argv))) ≡ none
unfolding command_problem
attribute_lem argv interface c program (calls, signals) = elim (Bool-cases (interface == "setup")) [
  | inl setup ↦ rw setup (rw program refl)
  | inr other ↦ elim (Bool-cases (interface == "library")) [
    | inl library ↦ rw (other, library) (rw (program, library, calls, signals) refl)
    | inr cli ↦ rw (other, cli) (rw (program, cli) refl)
  ]
]

pub attribute-interface :
    (argv : List String) (interface : String) (c : Completed)
    → (interface == "setup") ≡ false
    → (attribute interface c (with_end c (fresh_record argv))).interface ≡ some interface
attribute-interface argv interface c h = elim (Bool-cases (interface == "library")) [
  | inl library ↦ rw (h, library) refl
  | inr cli ↦ rw (h, cli) refl
]
