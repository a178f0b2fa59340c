-- ===== src/Coverage/Summary/Sound.antt =====
-- What a summary may claim.
use flatpak_blackbox_tests.Base.{
  ℕ, String, Bool, true, ◌&&◌, ◌||◌, Option, none, some, List, [], ◌∷◌, ◌++◌, any, contains, ◌≡◌,
  ◌⊎◌, refl, ap, sym, ◌∙◌, subst, ◌↔◌, arith, All, Bool-cases, Option-cases, inl, inr, and_true,
}
use flatpak_blackbox_tests.Base.Sets.{contains-add_all}
use flatpak_blackbox_tests.Json.Value.{Float, ok, >>=-eq-ok}
use flatpak_blackbox_tests.Coverage.Records.{
  CaseIdentity, CaseDict, CaseResult, RunReport, Definition, case_lookup, same_case, or_empty,
  is_true,
}
use flatpak_blackbox_tests.Coverage.Metric.Bounds.{IsSubset}
use flatpak_blackbox_tests.Coverage.Model.{Mapped, CoverageModel, required_surfaces}
use flatpak_blackbox_tests.Coverage.Subject.{is_passing}
use flatpak_blackbox_tests.Coverage.Subject.Laws.{IsAttributed, subject_problem-none, HasPassing}
use flatpak_blackbox_tests.Coverage.Credit.{Credit, no_credit, credit_results, mapped_to}
use flatpak_blackbox_tests.Coverage.Credit.Exact.{credit_results_exact, covers}
use flatpak_blackbox_tests.Coverage.Summary.Verify.{Verification, current, verify}
use flatpak_blackbox_tests.Coverage.Summary.Current.{
  IsCurrent, IsFinished, has_passed, has_failed, is_unmet, is_unsupported, had_setup_error,
  was_not_selected,
}
use flatpak_blackbox_tests.Coverage.Summary.Verified.{verify-IsCurrent, IsCurrent-verify}
use flatpak_blackbox_tests.Coverage.Summary.{
  Summary, summarize, implemented_by, run_credit, verification_of, credit_of, or_no_credit,
}

-- A report is current exactly when its definition is the one that the model was built from, field by field and without
-- further fields, and so is the definition of the files as they are now, it is complete, its results are the model's
-- cases, each once, each has one of the six final statuses, a passed one has confirmed cleanup and no cleanup error,
-- and no subject problem is found.
pub verify-current_iff :
    (m : CoverageModel) (definition snapshot : Definition) (report : RunReport)
    → (verify m definition snapshot report ≡ current) ↔ IsCurrent m definition snapshot report
verify-current_iff m definition snapshot report =
    (verify-IsCurrent m definition snapshot report, IsCurrent-verify m definition snapshot report)

or_right : (a : Bool) {b : Bool} → b ≡ true → (a || b) ≡ true
or_right a h = ground arith

-- A test that holds of some element holds of one that can be named.
pub any_witness {ℓ} :
    {A : Type ℓ} (p : A → Bool) (xs : List A)
    → any p xs ≡ true
    → (before : List A) × (x : A) × (after : List A) × (xs ≡ before ++ x ∷ after) × (p x ≡ true)
any_witness p [] h = cc
any_witness p (x ∷ xs) h = elim (Bool-cases (p x)) [
  | inl here ↦ ([], x, xs, refl, here)
  | inr other ↦
      let (before, y, after, e, hy) = any_witness p xs (rw other at h) in
      (x ∷ before, y, after, ap (λ l. x ∷ l) e, hy)
]

All-middle {ℓ κ} :
    {A : Type ℓ} (P : A → Type κ) (before : List A) (x : A) (after : List A)
    → All P (before ++ x ∷ after)
    → P x
All-middle P [] x after (h, rest) = h
All-middle P (y ∷ before) x after (h, rest) = All-middle P before x after rest

mapping-implemented :
    (k : CaseIdentity) (d : CaseDict Mapped) (e : Mapped) (i : String)
    → case_lookup k d ≡ some e
    → contains i e.requirements ≡ true
    → contains i (implemented_by d) ≡ true
mapping-implemented k [] e i h c = cc
mapping-implemented k ((j, f) ∷ d) e i h c = elim (Bool-cases (same_case j k)) [
  | inl here ↦ let same : f ≡ e = cc (rw here at h) in rw contains-add_all (rw same (rw c))
  | inr there ↦
      rw contains-add_all
        (or_right (contains i f.requirements) (mapping-implemented k d e i (rw there at h) c))
]

covers-implemented :
    (m : CoverageModel) (r : CaseResult) (i : String)
    → covers m r i ≡ true
    → contains i (implemented_by m.mapping) ≡ true
unfolding mapped_to
covers-implemented m r i h = elim (Option-cases (case_lookup r.identity m.mapping)) [
  | inl e ↦ absurd (cc (rw (e, mapped_to) at h))
  | inr (entry, e) ↦ mapping-implemented r.identity m.mapping entry i e (rw (e, mapped_to) at h)
]

-- Whatever a run is credited with passing, some mapped case implements.
pub passed-IsSubset :
    (m : CoverageModel) (report : RunReport) (rs : List CaseResult) (c : Credit)
    → credit_results m report rs no_credit ≡ ok c
    → IsSubset c.passed (implemented_by m.mapping)
passed-IsSubset m report rs c h i passed =
    let (before, r, after, _, both) =
      any_witness (λ r. is_passing r && covers m r i) rs
        (sym (credit_results_exact m report rs c h i).0 ∙ passed) in
    covers-implemented m r i (and_true (is_passing r) (covers m r i) both).1

nothing_passed :
    (i : String) (s : Summary) (credit : Option Credit)
    → credit ≡ none
    → or_no_credit credit ≡ s.credit
    → contains i s.credit.passed ≡ true
    → ⊥
nothing_passed i s credit e same passed =
    let empty : no_credit ≡ s.credit = cc (e, same) in
    cc (subst (λ (c : Credit). contains i c.passed ≡ true) (sym empty) passed)

-- A run has credit only where its report is current.
run_credit_cases :
    (m : CoverageModel) (v : Verification) (report : RunReport) (credit : Option Credit)
    → run_credit m v report ≡ ok credit
    → (credit ≡ none)
      ⊎ ((v ≡ current)
          × (c : Credit) × (credit ≡ some c)
          × (credit_results m report (or_empty report.results) no_credit ≡ ok c))
unfolding run_credit
run_credit_cases m current report credit h =
    let (c, made, h₁) =
      >>=-eq-ok (credit_results m report (or_empty report.results) no_credit) _ h in
    let same : some c ≡ credit = cc h₁ in inr (refl, c, sym same, made)
run_credit_cases m _ report credit h = let same : none ≡ credit = cc h in inl (sym same)

summarize-credit :
    (round_percent : ℕ → ℕ → Float) (m : CoverageModel) (definition snapshot : Definition)
    (report : Option RunReport) (s : Summary)
    → summarize round_percent m definition snapshot report ≡ ok s
    → (credit : Option Credit) × (credit_of m (verification_of m definition snapshot report) report
        ≡ ok credit)
      × (or_no_credit credit ≡ s.credit)
      × (verification_of m definition snapshot report ≡ s.verification)
unfolding summarize
summarize-credit round_percent m definition snapshot report s h =
    let (credit, made, h₁) =
      >>=-eq-ok (credit_of m (verification_of m definition snapshot report) report) _ h in
    let (required, _, h₂) =
      >>=-eq-ok (required_surfaces m.requirements (implemented_by m.mapping)) _ h₁ in
    (credit, made, cc h₂, cc h₂)

finished_cleanup :
    (r : CaseResult) → IsFinished r → is_passing r ≡ true → is_true r.cleanup_complete ≡ true
unfolding is_passing
finished_cleanup r (has_passed e cleaned silent) pass = rw cleaned refl
finished_cleanup r (has_failed e) pass = absurd (cc (rw e at pass))
finished_cleanup r (is_unmet e) pass = absurd (cc (rw e at pass))
finished_cleanup r (is_unsupported e) pass = absurd (cc (rw e at pass))
finished_cleanup r (had_setup_error e) pass = absurd (cc (rw e at pass))
finished_cleanup r (was_not_selected e) pass = absurd (cc (rw e at pass))

passing-HasPassing :
    (before : List CaseResult) (r : CaseResult) (after : List CaseResult)
    → is_passing r ≡ true
    → HasPassing (before ++ r ∷ after)
passing-HasPassing [] r after h = rw h
passing-HasPassing (x ∷ before) r after h = elim (Bool-cases (is_passing x)) [
  | inl e ↦ rw e
  | inr e ↦ rw e (passing-HasPassing before r after h)
]

-- A requirement that a summary of a report counts as passed has a case in this report that passed,
-- covers the requirement, left nothing behind, and carries sound evidence at its own interface; and
-- the report is current.
pub summarize_passed :
    (round_percent : ℕ → ℕ → Float) (m : CoverageModel) (definition snapshot : Definition)
    (report : RunReport) (s : Summary) (i : String)
    → summarize round_percent m definition snapshot (some report) ≡ ok s
    → contains i s.credit.passed ≡ true
    → IsCurrent m definition snapshot report
      × ((before : List CaseResult) × (r : CaseResult) × (after : List CaseResult) × (or_empty
              report.results
            ≡ before ++ r ∷ after)
          × (is_passing r ≡ true)
          × (covers m r i ≡ true)
          × (is_true r.cleanup_complete ≡ true)
          × IsAttributed r)
summarize_passed round_percent m definition snapshot report s i h passed =
    let v = verify m definition snapshot report in
    let (credit, made, same, _) =
      summarize-credit round_percent m definition snapshot (some report) s h in
    elim (run_credit_cases m v report credit made) [
      | inl none_given ↦ absurd (nothing_passed i s credit none_given same passed)
      | inr (is_current, c, some_given, counted) ↦
          let results = or_empty report.results in
          let fits = verify-IsCurrent m definition snapshot report is_current in
          let same_credit : c ≡ s.credit = cc (same, some_given) in
          let passed' : contains i c.passed ≡ true = rw same_credit passed in
          let (before, r, after, split, both) =
            any_witness (λ r. is_passing r && covers m r i) results
              (sym (credit_results_exact m report results c counted i).0 ∙ passed') in
          let (pass, covering) = and_true (is_passing r) (covers m r i) both in
          let (_, _, attributed) =
            subject_problem-none report results (rw split (passing-HasPassing before r after pass))
              fits.subject in
          let clean =
            finished_cleanup r (All-middle IsFinished before r after (rw split at fits.finished))
              pass in
          let whose =
            All-middle (λ x. is_passing x ≡ true → IsAttributed x) before r after
              (rw split at attributed) in
          (fits, (before, r, after, split, pass, covering, clean, whose pass))
    ]
