-- ===== src/Coverage/Model/Invariant.antt =====
-- What each round of the loops preserves, and the invariant of the model that they build.
use flatpak_blackbox_tests.Base.{
  String, Bool, true, false, not, ◌&&◌, ◌||◌, List, [], ◌∷◌, ◌++◌, ◌==◌, eq_iff, contains,
  is_unique, add, add_all, is_some, is_empty, all_chars, ◌≡◌, subst, arith, All, and_true,
  Bool-cases, inl, inr,
}
use flatpak_blackbox_tests.Base.Words.{is_space}
use flatpak_blackbox_tests.Base.Dict.{Dict}
use flatpak_blackbox_tests.Json.Value.{ok, >>=-eq-ok, guard-then, then-eq-ok}
use flatpak_blackbox_tests.Schema.Index.{indexed, members, members-lookup, indexed_iff}
use flatpak_blackbox_tests.Coverage.Records.{
  Surface, Requirement, Behavior, SurfaceAssertion, CoverageMapping, RequirementsDocument,
  CaseIdentity, CaseDict, case_lookup, or_empty,
}
use flatpak_blackbox_tests.Coverage.Model.{
  Mapped, CoverageModel, each, check_document, check_mapped, allowed_kinds, has_kind,
  add_assertions, required_surfaces, add_equivalents, mapping_key, check_mapping, add_mappings,
  coverage_model, requirement_id, surface_id, behavior_id, check_surface, add_cases,
}
use flatpak_blackbox_tests.Coverage.Model.WellFormed.{IsEquivalent, IsMapped, IsWellFormed}
use flatpak_blackbox_tests.Coverage.Model.Steps.{
  each-All, All-map, All-append, Refers, document-Refers, mapped-IsCoverable, add-All,
  assertions-All, absent_left, absent_right, required-IsNotRequired,
}

module _ (surfaces : Dict Surface) (requirements : Dict Requirement) (key : CaseIdentity)
    (entry : Mapped) where
  -- the tests of one assertion of an equivalent option
  is_good : List String → SurfaceAssertion → List String → Bool
  is_good behavioral a old =
      key.driver == "cli"
      && (has_kind surfaces ("cli-option" ∷ []) a.id
          && (not (all_chars is_space a.rationale)
              && not (contains a.id old || contains a.id behavioral)))

  good-parts :
      (behavioral : List String) (a : SurfaceAssertion) (old : List String)
      → is_good behavioral a old ≡ true
      → (key.driver ≡ "cli")
        × (has_kind surfaces ("cli-option" ∷ []) a.id ≡ true)
        × (contains a.id behavioral ≡ false)
  unfolding is_good
  good-parts behavioral a old h =
      let (cli, h₁) = and_true (key.driver == "cli") _ h in
      let (kind, h₂) = and_true (has_kind surfaces ("cli-option" ∷ []) a.id) _ h₁ in
      let (_, h₃) = and_true (not (all_chars is_space a.rationale)) _ h₂ in
      (
        (eq_iff key.driver "cli").0 cli,
        kind,
        not_or (contains a.id old) (contains a.id behavioral) h₃,
      )
    where
      not_or : (a b : Bool) → not (a || b) ≡ true → b ≡ false
      not_or a b h = ground arith

  module _ (required : List String)
      (found : required_surfaces requirements entry.requirements ≡ ok required) where
    equivalents-All :
        (as' : List SurfaceAssertion) (old new : List String)
        → add_equivalents surfaces key.driver (add_all entry.surface_assertions required) as' old
          ≡ ok new
        → All (IsEquivalent surfaces requirements key entry) old
        → All (IsEquivalent surfaces requirements key entry) new
    unfolding add_equivalents is_good
    equivalents-All [] old new h hold = let same : old ≡ new = cc h in rw (← same) hold
    equivalents-All (a ∷ rest) old new h hold =
        let behavioral = add_all entry.surface_assertions required in
        elim (Bool-cases (is_good behavioral a old)) [
          | inl good ↦
              let (cli, kind, out) = good-parts behavioral a old good in
              let here : IsEquivalent surfaces requirements key entry a.id = record {
                on_cli = cli;
                is_option = kind;
                not_asserted = absent_left a.id entry.surface_assertions required out;
                not_required =
                    required-IsNotRequired requirements entry.requirements required a.id found
                      (absent_right a.id entry.surface_assertions required out);
              } in
              equivalents-All rest (add a.id old) new (rw good at h)
                (add-All (IsEquivalent surfaces requirements key entry) a.id old here hold)
          | inr bad ↦ absurd (cc (rw bad at h))
        ]

module _ (surfaces : Dict Surface) (requirements : Dict Requirement)
    (cases : CaseDict Behavior) where
  mapping-IsMapped :
      (mapping : CaseDict Mapped) (m : CoverageMapping) (entry : Mapped)
      → check_mapping surfaces requirements cases mapping m ≡ ok entry
      → IsMapped surfaces requirements cases (mapping_key m) entry
  unfolding check_mapping
  mapping-IsMapped mapping m entry h =
      let key = mapping_key m in
      let (fresh, h₁) =
        guard-then (is_some (case_lookup key cases) && not (is_some (case_lookup key mapping))) _ _
          h in
      let (_, h₂) = guard-then (not (is_empty m.rationale)) _ _ h₁ in
      let (once, h₃) = guard-then (is_unique m.requirements) _ _ h₂ in
      let (covers, h₄) = then-eq-ok (each (check_mapped requirements key) m.requirements) _ h₃ in
      let (assertions, asserted, h₅) =
        >>=-eq-ok
          (add_assertions surfaces (allowed_kinds m.driver) (or_empty m.surface_assertions) []) _
          h₄ in
      let (required, needed, h₆) = >>=-eq-ok (required_surfaces requirements m.requirements) _ h₅ in
      let (equivalent, apart, h₇) =
        >>=-eq-ok
          (add_equivalents surfaces m.driver (add_all assertions required)
            (or_empty m.equivalent_options) [])
          _ h₆ in
      let e : Mapped = record {
        requirements = m.requirements;
        surface_assertions = assertions;
        equivalent_options = equivalent;
      } in
      let same : e ≡ entry = cc h₇ in
      subst (IsMapped surfaces requirements cases key) same (record {
        known = (and_true (is_some (case_lookup key cases)) _ fresh).0;
        distinct = once;
        coverable =
            All-map (mapped-IsCoverable requirements key) m.requirements
              (each-All (check_mapped requirements key) m.requirements covers);
        asserted =
            assertions-All surfaces (allowed_kinds m.driver) (or_empty m.surface_assertions) []
              assertions asserted tt;
        equivalent =
            equivalents-All surfaces requirements key e required needed
              (or_empty m.equivalent_options) [] equivalent apart tt;
      })

  abbrev Entry : CaseIdentity × Mapped → Type 0
  Entry e = IsMapped surfaces requirements cases e.0 e.1

  mappings-IsMapped :
      (ms : List CoverageMapping) (old new : CaseDict Mapped)
      → add_mappings surfaces requirements cases ms old ≡ ok new
      → All Entry old
      → All Entry new
  unfolding add_mappings
  mappings-IsMapped [] old new h hold = let same : old ≡ new = cc h in rw (← same) hold
  mappings-IsMapped (m ∷ ms) old new h hold =
      let (entry, checked, h₁) = >>=-eq-ok (check_mapping surfaces requirements cases old m) _ h in
      mappings-IsMapped ms (old ++ (mapping_key m, entry) ∷ []) new h₁ (
        All-append Entry old ((mapping_key m, entry) ∷ []) hold
          (mapping-IsMapped old m entry checked, tt))

-- In every model that is built, each requirement refers to surfaces of its own interface that are
-- there; each mapped case is a known case, its requirements are there, differ, and fit its driver and
-- profile; its asserted surfaces are there and of a kind that its driver allows; and its equivalent
-- options are CLI options, asserted nowhere in the case, and not among the surfaces of its requirements.
pub coverage_model-IsWellFormed :
    (policy : List String) (surface_items : List Surface) (cli library : RequirementsDocument)
    (behaviors : List Behavior) (mappings : List CoverageMapping) (m : CoverageModel)
    → coverage_model policy surface_items cli library behaviors mappings ≡ ok m
    → IsWellFormed m
unfolding coverage_model
coverage_model-IsWellFormed policy surface_items cli library behaviors mappings m h =
    let (surfaces, _, h₁) = >>=-eq-ok (indexed surface_id "surface" surface_items) _ h in
    let (_, h₂) = then-eq-ok (each check_surface (members surface_id "surface" surfaces)) _ h₁ in
    let (rs, cli_ok, h₃) = >>=-eq-ok (check_document surfaces "cli" cli) _ h₂ in
    let (rs', library_ok, h₄) = >>=-eq-ok (check_document surfaces "library" library) _ h₃ in
    let (requirements, by_id, h₅) =
      >>=-eq-ok (indexed requirement_id "requirement" (rs ++ rs')) _ h₄ in
    let (known, _, h₆) = >>=-eq-ok (indexed behavior_id "behavior" behaviors) _ h₅ in
    let (cases, _, h₇) = >>=-eq-ok (add_cases (members behavior_id "behavior" known) []) _ h₆ in
    let (mapping, mapped, h₈) =
      >>=-eq-ok (add_mappings surfaces requirements cases mappings []) _ h₇ in
    let (same_members, _, _) =
      (indexed_iff requirement_id "requirement" (rs ++ rs') requirements).0 by_id in
    let refer : All (Refers surfaces) (members requirement_id "requirement" requirements) =
      rw same_members (
        All-append (Refers surfaces) rs rs' (document-Refers surfaces "cli" cli rs cli_ok)
          (document-Refers surfaces "library" library rs' library_ok)) in
    let built : CoverageModel = record {
      surfaces = surfaces;
      requirements = requirements;
      cases = cases;
      mapping = mapping;
      limitations = policy ++ (cli.limitations ++ library.limitations);
    } in
    let same : built ≡ m = cc h₈ in
    subst IsWellFormed same (record {
      references = λ i r found.
          members-lookup requirement_id "requirement" (Refers surfaces) requirements i r refer
            found;
      mapped = mappings-IsMapped surfaces requirements cases mappings [] mapping mapped tt;
    })
