-- ===== src/Coverage/Metric.antt =====
-- coverage_report.py: `percentage` and `metric`. A set is a list without repetition. How Python
-- rounds `count * 100 / total` is a parameter.
pub mod Bounds
use flatpak_blackbox_tests.Base.{
  ℕ, String, Bool, Option, none, some, List, length, keep, contains, eqb, if◌then◌else◌,
}
use flatpak_blackbox_tests.Json.Value.{Float}

pub record CoverageMetric : Type 0 where
  pub total : ℕ
  pub implemented : ℕ
  pub implemented_percent : Option Float
  pub passed : Option ℕ
  pub passed_percent : Option Float

-- `len(universe & part)`
abbrev pub overlap : List String → List String → ℕ
overlap universe part = length (keep (λ x. contains x part) universe)

module _ (round_percent : ℕ → ℕ → Float) where
  unfoldable pub percentage : ℕ → ℕ → Option Float
  percentage count total = if eqb total 0 then none else some (round_percent count total)

  unfoldable pub metric : List String → List String → Option (List String) → CoverageMetric
  unfolding percentage
  metric universe implemented none =
      let total = length universe in
      let implemented_count = overlap universe implemented in
      record {
        total = total;
        implemented = implemented_count;
        implemented_percent = percentage implemented_count total;
        passed = none;
        passed_percent = none;
      }
  metric universe implemented (some passed) =
      let total = length universe in
      let implemented_count = overlap universe implemented in
      let passed_count = overlap universe passed in
      record {
        total = total;
        implemented = implemented_count;
        implemented_percent = percentage implemented_count total;
        passed = some passed_count;
        passed_percent = percentage passed_count total;
      }
