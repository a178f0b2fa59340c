-- ===== src/Schema/Reports.antt =====
-- report_schema.py: `parse_report`, `_seconds` and `_check_observations`. Whether an `int` is small enough for a `float`
-- is a parameter, as is `str.isidentifier`.
pub mod Laws
use flatpak_blackbox_tests.Base.{
  ℕ, ◌+◌, String, Bool, true, false, not, ◌&&◌, ◌||◌, Option, none, some, List, [], ◌∷◌,
  if◌then◌else◌, eqb,
}
use flatpak_blackbox_tests.Base.Dict.{Dict, has, insert, lookup}
use flatpak_blackbox_tests.Base.Int.{ℤ, pos}
use flatpak_blackbox_tests.Json.Value.{
  Float, nan, infinite, finite, Value, int, float, list, dict, FieldPath, field, item, bad_seconds,
  invalid, Result, ok, err, ◌>>=◌, ◌>>◌, guard, entries, items,
}
use flatpak_blackbox_tests.Json.Validate.{object_map, array, integer, required}
use flatpak_blackbox_tests.Typed.{parse_typed}
use flatpak_blackbox_tests.Fixture.Manifest.{parse_fixture}
use flatpak_blackbox_tests.Schema.Behaviors.{parse_gap}
use flatpak_blackbox_tests.Schema.Shapes.Report.{run_report as report_shape}

module _ (fits : ℕ → Bool) where
  -- a finite number that is not negative
  unfoldable pub is_seconds : Value → Bool
  is_seconds (int (pos n)) = fits n
  is_seconds (float (finite negative significand exponent)) = not negative || eqb significand 0
  is_seconds _ = false

  -- `_seconds`
  unfoldable pub seconds : Value → FieldPath → Result (Unit {0})
  unfolding is_seconds
  seconds value path = guard (is_seconds value) (invalid path bad_seconds)

  -- `if key in data: _seconds(data[key], ...)`
  abbrev pub optional_seconds : Option Value → FieldPath → Result (Unit {0})
  optional_seconds none path = ok tt
  optional_seconds (some v) path = seconds v path

  -- `for key, value in timings.items()`
  unfoldable pub all_seconds : Dict Value → FieldPath → Result (Unit {0})
  unfolding seconds
  all_seconds [] path = ok tt
  all_seconds ((key, value) ∷ rest) path = do seconds value (field path key); all_seconds rest path

  -- `data.get(key, {})` and `data.get(key, [])`
  abbrev pub object_of : Option Value → FieldPath → Result (Dict Value)
  object_of none path = ok []
  object_of (some v) path = object_map v path

  abbrev pub list_of_field : Option Value → FieldPath → Result (List Value)
  list_of_field none path = ok []
  list_of_field (some v) path = array v path

  abbrev pub check_observation : Option Value → FieldPath → Result (Unit {0})
  check_observation none path = ok tt
  check_observation (some value) path = do
    observation ← object_map value path
    cached_value ← required observation "cached_query_requests" path
    cached ← integer cached_value (field path "cached_query_requests") (some (pos 0))
    uncached_value ← required observation "uncached_query_requests" path
    uncached ← integer uncached_value (field path "uncached_query_requests") (some (pos 0))
    ok tt

  -- `_check_observations`
  unfoldable pub check_observations : List Value → FieldPath → ℕ → Result (Unit {0})
  check_observations [] path index = ok tt
  check_observations (v ∷ vs) path index = do
    record' ← object_map v (item path index)
    check_observation (lookup "query_network_observation" record')
        (field (item path index) "query_network_observation")
    check_observations vs path (index + 1)

  unfoldable pub check_result : Value → FieldPath → Result (Unit {0})
  unfolding seconds all_seconds check_observations
  check_result value path = do
    result ← object_map value path
    optional_seconds (lookup "duration_seconds" result) (field path "duration_seconds")
    timings ← object_of (lookup "timings" result) (field path "timings")
    all_seconds timings (field path "timings")
    evidence ← list_of_field (lookup "evidence" result) (field path "evidence")
    check_observations evidence (field path "evidence") 0

  unfoldable pub check_results : List Value → FieldPath → ℕ → Result (Unit {0})
  unfolding check_result
  check_results [] path index = ok tt
  check_results (v ∷ vs) path index = do
    check_result v (item path index)
    check_results vs path (index + 1)

  module _ (is_identifier : String → Bool) where
    -- `if "fixture" in report: report["fixture"] = ...`
    abbrev pub with_fixture : Option Value → Dict Value → FieldPath → Result (Dict Value)
    with_fixture none report path = ok report
    with_fixture (some v) report path = do
      fixture ← parse_fixture v (field path "fixture")
      ok (insert "fixture" (dict (entries fixture)) report)

    unfoldable pub gap_items : List Value → FieldPath → ℕ → Result (List Value)
    gap_items [] path index = ok []
    gap_items (v ∷ vs) path index = do
      gap ← parse_gap is_identifier v (item path index)
      rest ← gap_items vs path (index + 1)
      ok (dict (entries gap) ∷ rest)

    abbrev pub with_gaps : Option Value → Dict Value → FieldPath → Result (Dict Value)
    with_gaps none report path = ok report
    with_gaps (some v) report path = do
      gaps ← array v (field path "gaps")
      parsed ← gap_items gaps (field path "gaps") 0
      ok (insert "gaps" (list (items parsed)) report)

    unfoldable pub parse_report : Value → FieldPath → Result (Dict Value)
    unfolding seconds check_observations check_results gap_items
    parse_report value path = do
      checked ← parse_typed value report_shape path
      raw ← object_map checked path
      optional_seconds (lookup "duration_seconds" raw) (field path "duration_seconds")
      filled ← with_fixture (lookup "fixture" raw) raw path
      report ← with_gaps (lookup "gaps" filled) filled path
      setup ← list_of_field (lookup "setup_evidence" report) (field path "setup_evidence")
      check_observations setup (field path "setup_evidence") 0
      results ← list_of_field (lookup "results" report) (field path "results")
      check_results results (field path "results") 0
      ok report
