-- ===== src/Coverage/Summary.antt =====
-- coverage_report.py: `summarize`, from the verification of a report to the metrics.
pub mod Verify
pub mod Current
pub mod Verified
pub mod Sound
pub mod Uncredited
use flatpak_blackbox_tests.Base.{
  ℕ, String, Bool, true, false, not, ◌&&◌, ◌||◌, Option, none, some, List, [], ◌∷◌, ◌++◌, ◌==◌, map,
  if◌then◌else◌, any, keep, contains, add, add_all,
}
use flatpak_blackbox_tests.Base.Dict.{Dict, keys}
use flatpak_blackbox_tests.Base.Sort.{sorted}
use flatpak_blackbox_tests.Json.Value.{Float, Result, ok, err, ◌>>=◌}
use flatpak_blackbox_tests.Coverage.Records.{
  Surface, Requirement, CaseIdentity, CaseDict, CaseResult, RunReport, Definition, or_empty,
}
use flatpak_blackbox_tests.Coverage.Metric.{CoverageMetric, metric}
use flatpak_blackbox_tests.Coverage.Model.{
  Mapped, CoverageModel, required_surfaces, kinds, profiles,
}
use flatpak_blackbox_tests.Coverage.Credit.{Credit, no_credit, credit_results}
use Verify.{Verification, not_run, current, verify}

-- Unions over the mapped cases.
abbrev pub implemented_by : CaseDict Mapped → List String
implemented_by [] = []
implemented_by ((k, e) ∷ d) = add_all e.requirements (implemented_by d)

abbrev pub asserted_by : CaseDict Mapped → List String
asserted_by [] = []
asserted_by ((k, e) ∷ d) = add_all e.surface_assertions (asserted_by d)

abbrev pub equivalent_by : CaseDict Mapped → List String
equivalent_by [] = []
equivalent_by ((k, e) ∷ d) = add_all e.equivalent_options (equivalent_by d)

-- `{key for key, item in d.items() if test(item)}`
abbrev pub keys_where {ℓ} : {A : Type ℓ} → (A → Bool) → Dict A → List String
keys_where test [] = []
keys_where test ((k, a) ∷ d) = let rest = keys_where test d in if test a then k ∷ rest else rest

abbrev pub interfaces : List String
interfaces = "cli" ∷ "library" ∷ []

abbrev pub categories_of : String → Dict Requirement → List String
categories_of interface [] = []
categories_of interface ((k, r) ∷ d) =
    let rest = categories_of interface d in
    if r.interface == interface then add r.category rest else rest

abbrev pub all_surfaces : Dict Requirement → List String
all_surfaces [] = []
all_surfaces ((k, r) ∷ d) = add_all r.surfaces (all_surfaces d)

abbrev pub without : List String → List String → List String
without xs ys = keep (λ x. not (contains x ys)) xs

pub record Metrics : Type 0 where
  pub behaviors : Dict CoverageMetric
  pub surfaces : Dict CoverageMetric
  pub profiles : Dict (Dict CoverageMetric)
  pub categories : Dict (Dict CoverageMetric)
  pub equivalence_checks : CoverageMetric
  pub accounted : CoverageMetric

pub record Summary : Type 0 where
  pub verification : Verification
  pub credit : Credit
  pub metrics : Metrics
  pub surfaces_without_requirements : List String
  pub unimplemented_requirements : List String
  pub unverified_requirements : Option (List String)
  pub limitations : List String

-- The sets of passed identifiers are there only for a current report.
unfoldable pub run_credit : CoverageModel → Verification → RunReport → Result (Option Credit)
run_credit m current report = do
  c ← credit_results m report (or_empty report.results) no_credit
  ok (some c)
run_credit m _ report = ok none

abbrev pub verification_of :
    CoverageModel → Definition → Definition → Option RunReport → Verification
verification_of m definition snapshot none = not_run
verification_of m definition snapshot (some report) = verify m definition snapshot report

abbrev pub credit_of : CoverageModel → Verification → Option RunReport → Result (Option Credit)
credit_of m verification none = ok none
credit_of m verification (some report) = run_credit m verification report

abbrev pub passed_of {ℓ} : {A : Type ℓ} → (Credit → A) → Option Credit → Option A
passed_of f none = none
passed_of f (some c) = some (f c)

abbrev pub or_no_credit : Option Credit → Credit
or_no_credit none = no_credit
or_no_credit (some c) = c

module _ (round_percent : ℕ → ℕ → Float) where
  unfoldable pub metrics_of : CoverageModel → List String → List String → Option Credit → Metrics
  metrics_of m implemented reached credit =
      let passed = passed_of (λ c. c.passed) credit in
      let passed_surfaces = passed_of (λ c. c.passed_surfaces) credit in
      let equivalent = equivalent_by m.mapping in
      let options = keys_where (λ s. s.kind == "cli-option") m.surfaces in
      record {
        behaviors =
            map
              (λ interface. (
                interface,
                metric round_percent (keys_where (λ r. r.interface == interface) m.requirements)
                    implemented passed,
              ))
              interfaces;
        surfaces =
            map
              (λ kind. (
                kind,
                metric round_percent (keys_where (λ s. s.kind == kind) m.surfaces) reached
                    passed_surfaces,
              ))
              kinds;
        profiles =
            map
              (λ interface. (
                interface,
                map
                    (λ profile. (
                      profile,
                      metric round_percent
                          (keys_where (λ r. r.interface == interface && r.profile == profile)
                            m.requirements)
                          implemented passed,
                    ))
                    profiles,
              ))
              interfaces;
        categories =
            map
              (λ interface. (
                interface,
                map
                    (λ category. (
                      category,
                      metric round_percent
                          (keys_where (λ r. r.interface == interface && r.category == category)
                            m.requirements)
                          implemented passed,
                    ))
                    (sorted (categories_of interface m.requirements)),
              ))
              interfaces;
        equivalence_checks =
            metric round_percent options equivalent (passed_of (λ c. c.passed_equivalent) credit);
        accounted =
            metric round_percent options (add_all reached equivalent)
              (passed_of (λ c. add_all c.passed_surfaces c.passed_equivalent) credit);
      }

  -- `definition` is what the model was built from, and `snapshot` what the suite's files hold now.
  unfoldable pub summarize :
      CoverageModel → Definition → Definition → Option RunReport → Result Summary
  unfolding metrics_of
  summarize m definition snapshot report = do
    let verification = verification_of m definition snapshot report
    credit ← credit_of m verification report
    let implemented = implemented_by m.mapping
    required ← required_surfaces m.requirements implemented
    let reached = add_all (asserted_by m.mapping) required
    ok (record {
      verification = verification;
      credit = or_no_credit credit;
      metrics = metrics_of m implemented reached credit;
      surfaces_without_requirements =
          sorted (without (keys m.surfaces) (all_surfaces m.requirements));
      unimplemented_requirements = sorted (without (keys m.requirements) implemented);
      unverified_requirements =
          passed_of (λ c. sorted (without (keys m.requirements) c.passed)) credit;
      limitations = m.limitations;
    })
