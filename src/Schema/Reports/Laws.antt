-- ===== src/Schema/Reports/Laws.antt =====
-- What a checked report has.
use flatpak_blackbox_tests.Base.{
  ℕ, ◌+◌, String, Bool, true, false, Option, none, some, List, [], ◌∷◌, All, ◌≡◌, sym, ◌∙◌, ap,
  subst, eqb, arith,
}
use flatpak_blackbox_tests.Base.Int.{pos, negsuc}
use flatpak_blackbox_tests.Base.Dict.{Dict, lookup, lookup-insert}
use flatpak_blackbox_tests.Json.Value.{
  Value, null, bool, int, float, text, tuple, other, nan, infinite, finite, dict, list, FieldPath,
  field, item, bad_seconds, invalid, ok, >>=-eq-ok, guard-eq-ok, then-eq-ok, ok_injective, entries,
  items,
}
use flatpak_blackbox_tests.Json.Validate.{object_map, array}
use flatpak_blackbox_tests.Typed.{parse_typed}
use flatpak_blackbox_tests.Fixture.Manifest.{parse_fixture}
use flatpak_blackbox_tests.Schema.Shapes.Report.{run_report as report_shape}
use flatpak_blackbox_tests.Schema.Reports.{
  is_seconds, seconds, optional_seconds, all_seconds, object_of, list_of_field, check_observations,
  check_result, check_results, with_fixture, with_gaps, gap_items, parse_report,
}

-- A finite number that is not negative; an integer is one that a `float` can hold.
pub data IsSeconds (fits : ℕ → Bool) : Value → Type 0 where
  counted : {n : ℕ} → fits n ≡ true → IsSeconds fits (int (pos n))
  positive : {significand exponent : ℕ} → IsSeconds fits (float (finite false significand exponent))
  negative_zero : {exponent : ℕ} → IsSeconds fits (float (finite true 0 exponent))

module _ (fits : ℕ → Bool) where
  -- A time that is there is finite and not negative.
  abbrev pub OptionalSeconds : Option Value → Type 0
  OptionalSeconds none = Unit
  OptionalSeconds (some v) = IsSeconds fits v

  zero_of : (n : ℕ) → eqb n 0 ≡ true → n ≡ 0
  zero_of n h = ground arith

  is_seconds-IsSeconds : (v : Value) → is_seconds fits v ≡ true → IsSeconds fits v
  unfolding is_seconds
  is_seconds-IsSeconds (int (pos n)) h = counted h
  is_seconds-IsSeconds (float (finite false significand exponent)) h = positive
  is_seconds-IsSeconds (float (finite true significand exponent)) h =
      subst (λ n. IsSeconds fits (float (finite true n exponent))) (sym (zero_of significand h))
        negative_zero
  is_seconds-IsSeconds (int (negsuc n)) h = absurd (cc h)
  is_seconds-IsSeconds null h = absurd (cc h)
  is_seconds-IsSeconds (bool b) h = absurd (cc h)
  is_seconds-IsSeconds (float nan) h = absurd (cc h)
  is_seconds-IsSeconds (float (infinite b)) h = absurd (cc h)
  is_seconds-IsSeconds (text s) h = absurd (cc h)
  is_seconds-IsSeconds (list vs) h = absurd (cc h)
  is_seconds-IsSeconds (tuple vs) h = absurd (cc h)
  is_seconds-IsSeconds (dict d) h = absurd (cc h)
  is_seconds-IsSeconds other h = absurd (cc h)

  seconds_lem : (v : Value) (path : FieldPath) → seconds fits v path ≡ ok tt → IsSeconds fits v
  unfolding seconds
  seconds_lem v path h =
      is_seconds-IsSeconds v (guard-eq-ok (is_seconds fits v) (invalid path bad_seconds) tt h)

  optional_seconds_lem :
      (o : Option Value) (path : FieldPath)
      → optional_seconds fits o path ≡ ok tt
      → OptionalSeconds o
  optional_seconds_lem none path h = tt
  optional_seconds_lem (some v) path h = seconds_lem v path h

  all_seconds_lem :
      (d : Dict Value) (path : FieldPath)
      → all_seconds fits d path ≡ ok tt
      → All (λ (e : String × Value). IsSeconds fits e.1) d
  unfolding all_seconds
  all_seconds_lem [] path h = tt
  all_seconds_lem ((key, v) ∷ d) path h =
      let (first, others) = then-eq-ok (seconds fits v (field path key)) _ h in
      (seconds_lem v (field path key) first, all_seconds_lem d path others)

  -- A result whose times are finite and not negative.
  pub record IsTimed (path : FieldPath) (v : Value) : Type 0 where
    pub result : Dict Value
    pub read : object_map v path ≡ ok result
    pub duration : OptionalSeconds (lookup "duration_seconds" result)
    pub timings : Dict Value
    pub timings_read : object_of fits (lookup "timings" result) (field path "timings") ≡ ok timings
    pub parts : All (λ (e : String × Value). IsSeconds fits e.1) timings

  check_result-IsTimed :
      (v : Value) (path : FieldPath) → check_result fits v path ≡ ok tt → IsTimed path v
  unfolding check_result
  check_result-IsTimed v path h =
      let (result, read, h₁) = >>=-eq-ok (object_map v path) _ h in
      let (lasted, h₂) =
        then-eq-ok
          (optional_seconds fits (lookup "duration_seconds" result) (field path "duration_seconds"))
          _ h₁ in
      let (timings, timed, h₃) =
        >>=-eq-ok (object_of fits (lookup "timings" result) (field path "timings")) _ h₂ in
      let (parts, _) = then-eq-ok (all_seconds fits timings (field path "timings")) _ h₃ in
      record {
        result = result;
        read = read;
        duration =
            optional_seconds_lem (lookup "duration_seconds" result) (field path "duration_seconds")
              lasted;
        timings = timings;
        timings_read = timed;
        parts = all_seconds_lem timings (field path "timings") parts;
      }

  -- The same of all results, each at its place.
  abbrev pub AreTimed : FieldPath → ℕ → List Value → Type 0
  AreTimed path index [] = Unit
  AreTimed path index (v ∷ vs) = IsTimed (item path index) v × AreTimed path (index + 1) vs

  check_results-AreTimed :
      (vs : List Value) (path : FieldPath) (index : ℕ)
      → check_results fits vs path index ≡ ok tt
      → AreTimed path index vs
  unfolding check_results
  check_results-AreTimed [] path index h = tt
  check_results-AreTimed (v ∷ vs) path index h =
      let (first, others) = then-eq-ok (check_result fits v (item path index)) _ h in
      (
        check_result-IsTimed v (item path index) first,
        check_results-AreTimed vs path (index + 1) others,
      )

  with_fixture-duration :
      (is_identifier : String → Bool) (o : Option Value) (d e : Dict Value) (path : FieldPath)
      → with_fixture fits is_identifier o d path ≡ ok e
      → lookup "duration_seconds" e ≡ lookup "duration_seconds" d
  with_fixture-duration is_identifier none d e path h =
      ap (lookup "duration_seconds") (sym (ok_injective h))
  with_fixture-duration is_identifier (some v) d e path h =
      let (fixture, _, h₁) = >>=-eq-ok (parse_fixture v (field path "fixture")) _ h in
      ap (lookup "duration_seconds") (sym (ok_injective h₁))
      ∙ lookup-insert "fixture" "duration_seconds" (dict (entries fixture)) d

  with_gaps-duration :
      (is_identifier : String → Bool) (o : Option Value) (d e : Dict Value) (path : FieldPath)
      → with_gaps fits is_identifier o d path ≡ ok e
      → lookup "duration_seconds" e ≡ lookup "duration_seconds" d
  with_gaps-duration is_identifier none d e path h =
      ap (lookup "duration_seconds") (sym (ok_injective h))
  with_gaps-duration is_identifier (some v) d e path h =
      let (gaps, _, h₁) = >>=-eq-ok (array v (field path "gaps")) _ h in
      let (parsed, _, h₂) =
        >>=-eq-ok (gap_items fits is_identifier gaps (field path "gaps") 0) _ h₁ in
      ap (lookup "duration_seconds") (sym (ok_injective h₂))
      ∙ lookup-insert "gaps" "duration_seconds" (list (items parsed)) d

  -- In a report that is returned the duration of the run, and of each result the duration and all its parts, are finite
  -- and not negative where they are present.
  pub parse_report-AreTimed :
      (is_identifier : String → Bool) (value : Value) (path : FieldPath) (report : Dict Value)
      → parse_report fits is_identifier value path ≡ ok report
      → (results : List Value) × (list_of_field fits
            (lookup "results" report)
            (field path "results")
          ≡ ok results)
        × OptionalSeconds (lookup "duration_seconds" report)
        × AreTimed (field path "results") 0 results
  unfolding parse_report
  parse_report-AreTimed is_identifier value path report h =
      let (checked, _, h₁) = >>=-eq-ok (parse_typed value report_shape path) _ h in
      let (raw, _, h₂) = >>=-eq-ok (object_map checked path) _ h₁ in
      let (lasted, h₃) =
        then-eq-ok
          (optional_seconds fits (lookup "duration_seconds" raw) (field path "duration_seconds")) _
          h₂ in
      let (filled, fixed, h₄) =
        >>=-eq-ok (with_fixture fits is_identifier (lookup "fixture" raw) raw path) _ h₃ in
      let (whole, gapped, h₅) =
        >>=-eq-ok (with_gaps fits is_identifier (lookup "gaps" filled) filled path) _ h₄ in
      let (setup, _, h₆) =
        >>=-eq-ok (list_of_field fits (lookup "setup_evidence" whole) (field path "setup_evidence"))
          _ h₅ in
      let (_, h₇) =
        then-eq-ok (check_observations fits setup (field path "setup_evidence") 0) _ h₆ in
      let (results, listed, h₈) =
        >>=-eq-ok (list_of_field fits (lookup "results" whole) (field path "results")) _ h₇ in
      let (tested, h₉) = then-eq-ok (check_results fits results (field path "results") 0) _ h₈ in
      let timed =
        optional_seconds_lem (lookup "duration_seconds" raw) (field path "duration_seconds")
          lasted in
      let kept =
        with_gaps-duration is_identifier (lookup "gaps" filled) filled whole path gapped
        ∙ with_fixture-duration is_identifier (lookup "fixture" raw) raw filled path fixed in
      subst
        (λ (r : Dict Value).
          (results : List Value) × (list_of_field fits (lookup "results" r) (field path "results")
            ≡ ok results)
          × OptionalSeconds (lookup "duration_seconds" r)
          × AreTimed (field path "results") 0 results)
        (ok_injective h₉)
        (
          results,
          listed,
          subst OptionalSeconds (sym kept) timed,
          check_results-AreTimed results (field path "results") 0 tested,
        )
