-- ===== src/Runner/Failures/Laws.antt =====
-- Which failures a run may be forgiven, and what a verified set of artifacts is.
use flatpak_blackbox_tests.Base.{
  ℕ, String, Bool, true, false, not, ◌&&◌, Option, some, List, [], ◌∷◌, ◌==◌, any, all, eqb,
  contains, is_some, ◌≡◌, refl, ap, ◌∙◌, none, eq_iff, eq_refl, Option-cases, ◌↔◌, arith, All,
  Bool-cases, inl, inr, and_true,
}
use flatpak_blackbox_tests.Base.Dict.{Dict}
use flatpak_blackbox_tests.Coverage.Records.{
  ArtifactIntegrity, RunReport, or_empty, is_true, is_text, is_true_lem,
}
use flatpak_blackbox_tests.Coverage.Subject.{is_verified}
use flatpak_blackbox_tests.Runner.Failures.{
  is_security_sensitive, is_failed, settled_statuses, expected_scenario_failures_only, is_unchanged,
  changed_paths_of, integrity_status, check_artifacts,
}
use flatpak_blackbox_tests.Runner.Failures.Forgivable.{
  IsForgivable, SomeFailed, some_failed→, some_failed←, forgivable→, forgivable←,
}

pub record IsExpected (report : RunReport) (coverage : Option String) (status : ℕ)
    (delivered : Bool) : Type 0 where
  pub status_one : status ≡ 1
  pub summary : delivered ≡ true
  pub complete : report.complete ≡ some true
  pub no_setup_error : report.setup_error ≡ none
  pub some_failed : SomeFailed (or_empty report.results)
  pub results : All IsForgivable (or_empty report.results)
  pub integrity :
      (i : ArtifactIntegrity) × (report.artifact_integrity ≡ some i) × (i.status ≡ some "verified")
  pub current : coverage ≡ some "current"

not_true→ : (b : Bool) → not b ≡ true → b ≡ false
not_true→ false h = refl
not_true→ true h = cc h

one_of : (n : ℕ) → eqb n 1 ≡ true → n ≡ 1
one_of n h = ground arith

pub text_some : (s : String) (o : Option String) → is_text s o ≡ true → o ≡ some s
text_some s none h = absurd (cc h)
text_some s (some t) h = ap some ((eq_iff t s).0 h)

pub some_text : (s : String) (o : Option String) → o ≡ some s → is_text s o ≡ true
some_text s o e = rw e (eq_refl s)

nothing_there : (o : Option String) → is_some o ≡ false → o ≡ none
nothing_there none h = refl
nothing_there (some s) h = absurd (cc h)

pub verified_some :
    (o : Option ArtifactIntegrity)
    → is_verified o ≡ true
    → (i : ArtifactIntegrity) × (o ≡ some i) × (i.status ≡ some "verified")
unfolding is_verified
verified_some none h = absurd (cc h)
verified_some (some i) h = (i, refl, text_some "verified" i.status h)

some_verified :
    (o : Option ArtifactIntegrity) (i : ArtifactIntegrity)
    → o ≡ some i
    → i.status ≡ some "verified"
    → is_verified o ≡ true
unfolding is_verified
some_verified o i e h = rw e (some_text "verified" i.status h)

-- A run's failures are all expected exactly when its status is 1 and its summary was delivered, it is
-- complete without a setup error, some case failed, every case passed, failed or was not selected,
-- no failed case is security sensitive, the artifacts are verified, and the coverage is current.
pub expected_scenario_failures_only_iff :
    (report : RunReport) (coverage : Option String) (status : ℕ) (delivered : Bool)
    → (expected_scenario_failures_only report coverage status delivered ≡ true)
      ↔ IsExpected report coverage status delivered
unfolding expected_scenario_failures_only
expected_scenario_failures_only_iff report coverage status delivered = (
  λ h.
      let results = or_empty report.results in
      let (a, h₁) = and_true (eqb status 1) _ h in
      let (b, h₂) = and_true delivered _ h₁ in
      let (c, h₃) = and_true (is_true report.complete) _ h₂ in
      let (d, h₄) = and_true (not (is_some report.setup_error)) _ h₃ in
      let (e, h₅) = and_true (any is_failed results) _ h₄ in
      let (f, h₆) =
        and_true (not (any (λ r. is_failed r && is_security_sensitive r) results)) _ h₅ in
      let (g, h₇) = and_true (all (λ r. contains r.status settled_statuses) results) _ h₆ in
      let (i, j) = and_true (is_verified report.artifact_integrity) _ h₇ in
      record {
        status_one = one_of status a;
        summary = b;
        complete = is_true_lem report.complete c;
        no_setup_error =
            nothing_there report.setup_error (not_true→ (is_some report.setup_error) d);
        some_failed = some_failed→ results e;
        results =
            forgivable→ results
              (not_true→ (any (λ r. is_failed r && is_security_sensitive r) results) f) g;
        integrity = verified_some report.artifact_integrity i;
        current = text_some "current" coverage j;
      },
  λ x.
      let (f, g) = forgivable← (or_empty report.results) x.results in
      let (i, there, verified) = x.integrity in
      rw (
        x.status_one,
        x.summary,
        x.complete,
        x.no_setup_error,
        some_failed← (or_empty report.results) x.some_failed,
        f,
        g,
        some_verified report.artifact_integrity i there verified,
        x.current,
      ),
)

module _ (digest_of : String → Option String) where
  -- Each artifact can be read, and has the digest that was recorded.
  abbrev pub IsIntact : Dict String → Type 0
  IsIntact artifacts = All (λ (e : String × String). digest_of e.0 ≡ some e.1) artifacts

  unchanged_digest :
      (path expected : String)
      → is_unchanged digest_of path expected ≡ true
      → digest_of path ≡ some expected
  unchanged_digest path expected h = elim (Option-cases (digest_of path)) [
    | inl e ↦ absurd (cc (rw (is_unchanged, e) at h))
    | inr (d, e) ↦ e ∙ ap some ((eq_iff d expected).0 (rw (is_unchanged, e) at h))
  ]

  digest_unchanged :
      (path expected : String)
      → digest_of path ≡ some expected
      → is_unchanged digest_of path expected ≡ true
  digest_unchanged path expected e = rw (is_unchanged, e) (eq_refl expected)

  nothing_changed :
      (artifacts : Dict String) → changed_paths_of digest_of artifacts ≡ [] → IsIntact artifacts
  unfolding changed_paths_of
  nothing_changed [] h = tt
  nothing_changed ((p, e) ∷ artifacts) h = elim (Bool-cases (is_unchanged digest_of p e)) [
    | inl same ↦ (unchanged_digest p e same, nothing_changed artifacts (rw same at h))
    | inr other ↦ absurd (cc (rw other at h))
  ]

  unchanged_nothing :
      (artifacts : Dict String) → IsIntact artifacts → changed_paths_of digest_of artifacts ≡ []
  unfolding changed_paths_of
  unchanged_nothing [] h = refl
  unchanged_nothing ((p, e) ∷ artifacts) (same, h) =
      rw (digest_unchanged p e same) (unchanged_nothing artifacts h)

  verified_nothing :
      (ps : List String) → (integrity_status digest_of ps == "verified") ≡ true → ps ≡ []
  verified_nothing [] h = refl
  verified_nothing (p ∷ ps) h = cc h

  -- The artifacts are verified exactly when each can still be read and has its recorded digest.
  pub check_artifacts_iff :
      (artifacts : Dict String)
      → (is_verified (some (check_artifacts digest_of artifacts)) ≡ true) ↔ IsIntact artifacts
  unfolding check_artifacts is_verified
  check_artifacts_iff artifacts = (
    λ h. nothing_changed artifacts (verified_nothing (changed_paths_of digest_of artifacts) h),
    λ h. rw (unchanged_nothing artifacts h) refl,
  )
