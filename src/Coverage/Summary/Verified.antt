-- ===== src/Coverage/Summary/Verified.antt =====
-- `summarize` verifies a report as current exactly when it is.
use flatpak_blackbox_tests.Base.{
  Bool, true, false, not, ◌&&◌, Option, none, some, [], ◌∷◌, if◌then◌else◌, all, ◌≡◌, ◌≢◌, refl, ap,
  Option-cases, inl, inr, and_true, true_and,
}
use flatpak_blackbox_tests.Base.Dict.{Dict}
use flatpak_blackbox_tests.Json.Value.{Value}
use flatpak_blackbox_tests.Coverage.Records.{RunReport, Definition, or_empty, is_true, is_true_lem}
use flatpak_blackbox_tests.Coverage.Model.{CoverageModel}
use flatpak_blackbox_tests.Coverage.Subject.{Problem, subject_problem, is_nonempty}
use flatpak_blackbox_tests.Coverage.Summary.Verify.{
  Verification, current, stale, incomplete, wrong_cases, unfinished, unattributed, verify,
  same_definition, is_same_reported, has_case, distinct_cases, has_exact_cases, is_finished,
  result_keys, case_keys,
}
use flatpak_blackbox_tests.Coverage.Summary.Current.{
  IsCurrent, same_definition-IsSame, IsSame-same_definition, IsDistinct-iff, all-IsIn_iff,
  all-IsFinished_iff,
}

passes-test :
    (good : Bool) (bad next : Verification)
    → bad ≢ current
    → (if not good then bad else next) ≡ current
    → (good ≡ true) × (next ≡ current)
passes-test true bad next out h = (refl, h)
passes-test false bad next out h = absurd (out h)

no_problem :
    (o : Option Problem) → elim o [ none ↦ current | some p ↦ unattributed p ] ≡ current → o ≡ none
no_problem none h = refl
no_problem (some p) h = cc

no_extensions : (d : Dict Value) → not (is_nonempty d) ≡ true → d ≡ []
no_extensions [] h = refl
no_extensions (e ∷ d) h = absurd (cc h)

pub verify-IsCurrent :
    (m : CoverageModel) (definition snapshot : Definition) (report : RunReport)
    → verify m definition snapshot report ≡ current
    → IsCurrent m definition snapshot report
unfolding verify is_same_reported has_exact_cases
verify-IsCurrent m definition snapshot report h = elim (Option-cases report.coverage_definition) [
  | inl e ↦ absurd (cc (rw (e, verify) at h))
  | inr (d, e) ↦
      let results = or_empty report.results in
      let ks = result_keys results in
      let cases = case_keys m.cases in
      let (same, h₁) =
        passes-test (is_same_reported d definition && same_definition snapshot definition) stale _
          (λ x. cc x) (rw (e, verify) at h) in
      let (whole, h₂) = passes-test (is_true report.complete) incomplete _ (λ x. cc x) h₁ in
      let (exact, h₃) = passes-test (has_exact_cases ks cases) wrong_cases _ (λ x. cc x) h₂ in
      let (done, h₄) = passes-test (all is_finished results) unfinished _ (λ x. cc x) h₃ in
      let (reported, still) =
        and_true (is_same_reported d definition) (same_definition snapshot definition) same in
      let (bare, defined) = and_true (not (is_nonempty d.extensions)) _ reported in
      let (once, both) = and_true (distinct_cases ks) _ exact in
      let (into, onto) = and_true (all (λ k. has_case k cases) ks) _ both in
      record {
        defined = (
          d,
          e,
          no_extensions d.extensions bare,
          same_definition-IsSame d.definition definition defined,
        );
        unchanged = same_definition-IsSame snapshot definition still;
        complete = is_true_lem report.complete whole;
        distinct = (IsDistinct-iff ks).0 once;
        cases = λ k. ((all-IsIn_iff ks cases).0 into k, (all-IsIn_iff cases ks).0 onto k);
        finished = (all-IsFinished_iff results).0 done;
        subject = no_problem (subject_problem report results) h₄;
      }
]

pub IsCurrent-verify :
    (m : CoverageModel) (definition snapshot : Definition) (report : RunReport)
    → IsCurrent m definition snapshot report
    → verify m definition snapshot report ≡ current
unfolding verify is_same_reported has_exact_cases
IsCurrent-verify m definition snapshot report c =
    let (d, e, bare, same) = c.defined in
    let ks = result_keys (or_empty report.results) in
    let cases = case_keys m.cases in
    let reported : is_same_reported d definition ≡ true =
      true_and (rw bare refl) (IsSame-same_definition d.definition definition same) in
    let exact : has_exact_cases ks cases ≡ true = true_and ((IsDistinct-iff ks).1 c.distinct) (
      true_and ((all-IsIn_iff ks cases).1 λ k. (c.cases k).0)
        ((all-IsIn_iff cases ks).1 λ k. (c.cases k).1)) in
    let whole : is_true report.complete ≡ true = ap is_true c.complete in
    let done = (all-IsFinished_iff (or_empty report.results)).1 c.finished in
    rw (
      verify,
      e,
      reported,
      IsSame-same_definition snapshot definition c.unchanged,
      whole,
      exact,
      done,
      c.subject,
    )
