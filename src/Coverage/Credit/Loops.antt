-- ===== src/Coverage/Credit/Loops.antt =====
-- What each loop of the crediting adds.
use flatpak_blackbox_tests.Base.{
  String, Bool, true, false, ◌&&◌, ◌||◌, none, some, List, [], ◌∷◌, ◌==◌, eq_iff, any, contains,
  add, add_all, ◌≡◌, refl, ◌∙◌, subst, arith, Bool-cases, Option-cases, inl, inr,
}
use flatpak_blackbox_tests.Base.Dict.{Dict, lookup}
use flatpak_blackbox_tests.Base.Sets.{contains-add, contains-add_all}
use flatpak_blackbox_tests.Json.Value.{Result, ok, err, >>=-eq-ok}
use flatpak_blackbox_tests.Coverage.Records.{Surface, Requirement, CaseResult, RunReport, or_empty}
use flatpak_blackbox_tests.Coverage.Options.{command_option}
use flatpak_blackbox_tests.Coverage.Model.{subscript}
use flatpak_blackbox_tests.Coverage.Credit.{
  Credit, invoked_by, add_equivalent, add_equivalents_of, add_requirements, is_reached, credited,
  append_case,
}

-- The evidence of the case invokes the option that the identifier names.
abbrev pub has_true : Result Bool → Bool
has_true (ok b) = b
has_true (err e) = false

unfoldable pub is_invoked : RunReport → CaseResult → String → Bool
is_invoked report result identifier = elim (command_option identifier) [
  | none ↦ false
  | some p ↦ has_true (invoked_by report (or_empty result.evidence) p.0 p.1)
]

-- One credit agrees with another on what the equivalence checks leave alone, and has `ids` more.
pub record Adds (report : RunReport) (result : CaseResult) (ids : List String) (c c' : Credit)
    : Type 0 where
  pub passed : c'.passed ≡ c.passed
  pub passed_surfaces : c'.passed_surfaces ≡ c.passed_surfaces
  pub equivalent :
      (i : String)
      → contains i c'.passed_equivalent
        ≡ (contains i c.passed_equivalent || any (λ j. j == i && is_invoked report result j) ids)

pub or_nothing : (b : Bool) → b ≡ (b || false)
or_nothing b = ground arith

pub or_once : (a b e k : Bool) → k ≡ true → (e || b) ≡ (b || ((e && k) || false))
or_once a b e k h = ground arith

pub or_never : (b e k : Bool) → k ≡ false → b ≡ (b || ((e && k) || false))
or_never b e k h = ground arith

pub add_equivalent-Adds :
    (report : RunReport) (result : CaseResult) (i : String) (c c' : Credit)
    → add_equivalent report result i c ≡ ok c'
    → Adds report result (i ∷ []) c c'
unfolding add_equivalent is_invoked
add_equivalent-Adds report result i c c' h = elim (Option-cases (command_option i)) [
  | inl e ↦ absurd (cc (rw (e, add_equivalent) at h))
  | inr (p, e) ↦
      let (b, called, h₁) =
        >>=-eq-ok (invoked_by report (or_empty result.evidence) p.0 p.1) _
          (rw (e, add_equivalent) at h) in
      let known : is_invoked report result i ≡ b = rw (e, is_invoked) (rw called) in
      elim (Bool-cases b) [
        | inl called_true ↦
            let new : Credit = record c {
              passed_equivalent = add i c.passed_equivalent;
              equivalent_evidence = append_case i result.identity c.equivalent_evidence;
            } in
            let same : new ≡ c' = cc (rw called_true at h₁) in
            subst (Adds report result (i ∷ []) c) same (record {
              passed = refl;
              passed_surfaces = refl;
              equivalent = λ j.
                  contains-add j i c.passed_equivalent
                  ∙ or_once b (contains j c.passed_equivalent) (i == j) (is_invoked report result i)
                      (known ∙ called_true);
            })
        | inr called_false ↦
            let same : c ≡ c' = cc (rw called_false at h₁) in
            subst (Adds report result (i ∷ []) c) same (record {
              passed = refl;
              passed_surfaces = refl;
              equivalent = λ j.
                  or_never (contains j c.passed_equivalent) (i == j) (is_invoked report result i)
                    (known ∙ called_false);
            })
      ]
]

pub add_equivalents-Adds :
    (report : RunReport) (result : CaseResult) (ids : List String) (c c' : Credit)
    → add_equivalents_of report result ids c ≡ ok c'
    → Adds report result ids c c'
unfolding add_equivalents_of
add_equivalents-Adds report result [] c c' h =
    let same : c ≡ c' = cc h in
    subst (Adds report result [] c) same (record {
      passed = refl;
      passed_surfaces = refl;
      equivalent = λ i. or_nothing (contains i c.passed_equivalent);
    })
add_equivalents-Adds report result (i ∷ ids) c c' h =
    let (c₁, first, rest) = >>=-eq-ok (add_equivalent report result i c) _ h in
    let a = add_equivalent-Adds report result i c c₁ first in
    let b = add_equivalents-Adds report result ids c₁ c' rest in
    record {
      passed = b.passed ∙ a.passed;
      passed_surfaces = b.passed_surfaces ∙ a.passed_surfaces;
      equivalent = λ j. ground (arith, a.equivalent j, b.equivalent j);
    }

abbrev pub reaches : Dict Requirement → String → String → Bool
reaches requirements surface i = elim (lookup i requirements) [
  | none ↦ false
  | some r ↦ contains surface r.surfaces
]

pub record Requires (requirements : Dict Requirement) (ids asserted asserted' : List String)
    (c c' : Credit) : Type 0 where
  pub passed : (i : String) → contains i c'.passed ≡ (contains i c.passed || contains i ids)
  pub passed_surfaces : c'.passed_surfaces ≡ c.passed_surfaces
  pub passed_equivalent : c'.passed_equivalent ≡ c.passed_equivalent
  pub asserts :
      (s : String)
      → contains s asserted' ≡ (contains s asserted || any (reaches requirements s) ids)

pub add_requirements-Requires :
    (requirements : Dict Requirement) (result : CaseResult) (ids : List String) (c c' : Credit)
    (asserted asserted' : List String)
    → add_requirements requirements result ids c asserted ≡ ok (c', asserted')
    → Requires requirements ids asserted asserted' c c'
unfolding add_requirements
add_requirements-Requires requirements result [] c c' asserted asserted' h =
    let same : c ≡ c' = cc h in
    let same_asserted : asserted ≡ asserted' = cc h in
    subst (λ x. Requires requirements [] asserted x c c') same_asserted
      (subst (Requires requirements [] asserted asserted c) same (record {
        passed = λ i. or_nothing (contains i c.passed);
        passed_surfaces = refl;
        passed_equivalent = refl;
        asserts = λ s. or_nothing (contains s asserted);
      }))
add_requirements-Requires requirements result (i ∷ ids) c c' asserted asserted' h =
    let (r, found, rest) = >>=-eq-ok (subscript i requirements) _ h in
    let b =
      add_requirements-Requires requirements result ids _ c' (add_all r.surfaces asserted) asserted'
        rest in
    record {
      passed = λ j. ground (arith, b.passed j, contains-add j i c.passed, eq_iff i j);
      passed_surfaces = b.passed_surfaces;
      passed_equivalent = b.passed_equivalent;
      asserts = λ s. ground (arith, b.asserts s, contains-add_all s r.surfaces asserted);
    }

abbrev pub is_observable : Dict Surface → List String → List String → String → Bool
is_observable surfaces functions signals s = elim (lookup s surfaces) [
  | none ↦ false
  | some x ↦ is_reached functions signals s x.kind
]

pub reached_once : (e m o : Bool) → (e ≡ true → o ≡ true) → (e || (m && o)) ≡ ((e || m) && o)
reached_once e m o h = ground arith

pub reached_never : (e m o : Bool) → (e ≡ true → o ≡ false) → (m && o) ≡ ((e || m) && o)
reached_never e m o h = ground arith

pub credited_exact :
    (surfaces : Dict Surface) (functions signals asserted out : List String) (s : String)
    → credited surfaces functions signals asserted ≡ ok out
    → contains s out ≡ (contains s asserted && is_observable surfaces functions signals s)
unfolding credited
credited_exact surfaces functions signals [] out s h = let same : [] ≡ out = cc h in rw (← same)
credited_exact surfaces functions signals (x ∷ xs) out s h =
    let (k, found, h₁) = >>=-eq-ok (subscript x surfaces) _ h in
    let (rest, later, h₂) = >>=-eq-ok (credited surfaces functions signals xs) _ h₁ in
    let ih = credited_exact surfaces functions signals xs rest s later in
    let there : lookup x surfaces ≡ some k = ground arith in
    let seen = is_observable surfaces functions signals in
    let at_x : seen x ≡ is_reached functions signals x k.kind = rw (there, is_observable) in
    let at_s : (b : Bool)
        → is_reached functions signals x k.kind ≡ b
        → (x == s) ≡ true
        → seen s ≡ b =
      λ b r e. subst (λ y. seen y ≡ b) ((eq_iff x s).0 e) (at_x ∙ r) in
    elim (Bool-cases (is_reached functions signals x k.kind)) [
      | inl reached ↦
          let same : add x rest ≡ out = cc (rw reached at h₂) in
          rw (← same) (
            rw (contains-add s x rest)
              (rw ih (reached_once (x == s) (contains s xs) (seen s) (at_s true reached))))
      | inr unreached ↦
          let same : rest ≡ out = cc (rw unreached at h₂) in
          rw (← same)
            (rw ih (reached_never (x == s) (contains s xs) (seen s) (at_s false unreached)))
    ]
