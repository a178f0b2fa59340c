-- ===== src/Coverage/Summary/Uncredited.antt =====
-- What a summary says of a report that is not current.
use flatpak_blackbox_tests.Base.{ℕ, Option, none, some, ◌≡◌, ◌≢◌, refl, sym, ap, ◌∙◌, add_all}
use flatpak_blackbox_tests.Json.Value.{Float, ok, >>=-eq-ok, ok_injective}
use flatpak_blackbox_tests.Coverage.Records.{RunReport, Definition}
use flatpak_blackbox_tests.Coverage.Model.{CoverageModel, required_surfaces}
use flatpak_blackbox_tests.Coverage.Credit.{Credit, no_credit}
use flatpak_blackbox_tests.Coverage.Summary.Verify.{
  Verification, not_run, unversioned, stale, incomplete, wrong_cases, unfinished, unattributed,
  current, verify,
}
use flatpak_blackbox_tests.Coverage.Summary.{
  Summary, Metrics, summarize, metrics_of, implemented_by, asserted_by, run_credit, credit_of,
  verification_of, or_no_credit, passed_of, without,
}
use flatpak_blackbox_tests.Coverage.Metric.{metric}
use flatpak_blackbox_tests.Base.Dict.{keys}
use flatpak_blackbox_tests.Base.Sort.{sorted}

run_credit-none :
    (m : CoverageModel) (v : Verification) (report : RunReport) (credit : Option Credit)
    → v ≢ current
    → run_credit m v report ≡ ok credit
    → credit ≡ none
unfolding run_credit
run_credit-none m current report credit other h = absurd (other refl)
run_credit-none m not_run report credit other h = sym (ok_injective h)
run_credit-none m unversioned report credit other h = sym (ok_injective h)
run_credit-none m stale report credit other h = sym (ok_injective h)
run_credit-none m incomplete report credit other h = sym (ok_injective h)
run_credit-none m wrong_cases report credit other h = sym (ok_injective h)
run_credit-none m unfinished report credit other h = sym (ok_injective h)
run_credit-none m (unattributed p) report credit other h = sym (ok_injective h)

credit_of-none :
    (m : CoverageModel) (definition snapshot : Definition) (report : Option RunReport)
    (credit : Option Credit)
    → verification_of m definition snapshot report ≢ current
    → credit_of m (verification_of m definition snapshot report) report ≡ ok credit
    → credit ≡ none
credit_of-none m definition snapshot none credit other h = sym (ok_injective h)
credit_of-none m definition snapshot (some report) credit other h =
    run_credit-none m (verify m definition snapshot report) report credit other h

-- Without a current report, a summary credits nothing: the sets of passed requirements, surfaces and
-- options are empty, no requirement is called unverified, and the metrics of the options have no
-- count of passed ones.
pub summarize_uncredited :
    (round_percent : ℕ → ℕ → Float) (m : CoverageModel) (definition snapshot : Definition)
    (report : Option RunReport) (s : Summary)
    → summarize round_percent m definition snapshot report ≡ ok s
    → verification_of m definition snapshot report ≢ current
    → (s.verification ≡ verification_of m definition snapshot report)
      × (s.credit ≡ no_credit)
      × (s.unverified_requirements ≡ none)
      × (s.metrics.equivalence_checks.passed ≡ none)
      × (s.metrics.accounted.passed ≡ none)
unfolding summarize metric
summarize_uncredited round_percent m definition snapshot report s h other =
    let (credit, e, h₁) =
      >>=-eq-ok (credit_of m (verification_of m definition snapshot report) report) _ h in
    let (required, _, h₂) =
      >>=-eq-ok (required_surfaces m.requirements (implemented_by m.mapping)) _ h₁ in
    let nothing = credit_of-none m definition snapshot report credit other e in
    let same = ok_injective h₂ in
    let reached = add_all (asserted_by m.mapping) required in
    let counted : Option Credit → Metrics =
      metrics_of round_percent m (implemented_by m.mapping) reached in
    (
      sym (ap (λ s. s.verification) same),
      sym (ap (λ s. s.credit) same) ∙ ap or_no_credit nothing,
      sym (ap (λ s. s.unverified_requirements) same)
          ∙ ap (passed_of (λ c. sorted (without (keys m.requirements) c.passed))) nothing,
      sym (ap (λ s. s.metrics.equivalence_checks.passed) same)
          ∙ ap (λ c. (counted c).equivalence_checks.passed) nothing,
      sym (ap (λ s. s.metrics.accounted.passed) same)
          ∙ ap (λ c. (counted c).accounted.passed) nothing,
    )
