-- ===== src/Coverage/Metric/Bounds.antt =====
-- The counts of a metric are within its total, and grow with the sets that they count.
use flatpak_blackbox_tests.Base.{
  ℕ, String, true, none, some, List, [], ◌∷◌, length, contains, ◌≡◌, ◌≤◌, ◌↔◌, arith, length-keep,
}
use flatpak_blackbox_tests.Json.Value.{Float}
use flatpak_blackbox_tests.Coverage.Metric.{CoverageMetric, overlap, metric}

-- `part <= whole`
abbrev pub IsSubset : List String → List String → Type 0
IsSubset part whole = (x : String) → contains x part ≡ true → contains x whole ≡ true

pub overlap-le :
    (universe part whole : List String)
    → IsSubset part whole
    → overlap universe part ≤ overlap universe whole
overlap-le [] part whole h = omega arith
overlap-le (x ∷ universe) part whole h = ground (arith, overlap-le universe part whole h, h x)

pub overlap-le-length : (universe part : List String) → overlap universe part ≤ length universe
overlap-le-length universe part = length-keep (λ x. contains x part) universe

-- The passed count, where there is one.
abbrev pub passed_count : CoverageMetric → ℕ
passed_count m = elim m.passed [ none ↦ 0 | some n ↦ n ]

module _ (round_percent : ℕ → ℕ → Float) where
  -- If every passed identifier is implemented, then a metric counts no more passed than implemented
  -- identifiers, no more of these than its total, and has a percentage exactly when the total is
  -- not zero.
  pub metric_bounds :
      (universe implemented passed : List String)
      → IsSubset passed implemented
      → let m = metric round_percent universe implemented (some passed) in
        (passed_count m ≤ m.implemented)
        × (m.implemented ≤ m.total)
        × ((m.total ≡ 0) ↔ (m.implemented_percent ≡ none))
        × ((m.total ≡ 0) ↔ (m.passed_percent ≡ none))
  unfolding metric
  metric_bounds universe implemented passed h = (
    overlap-le universe passed implemented h,
    overlap-le-length universe implemented,
    (λ e. ground arith, λ e. ground arith),
    (λ e. ground arith, λ e. ground arith),
  )
