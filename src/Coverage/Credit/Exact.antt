-- ===== src/Coverage/Credit/Exact.antt =====
-- Exactly what a run is credited with.
use flatpak_blackbox_tests.Base.{
  String, Bool, true, false, ◌&&◌, ◌||◌, List, [], ◌∷◌, ◌==◌, any, contains, add_all, ◌≡◌, ap, ◌∙◌,
  subst, arith, Bool-cases, inl, inr,
}
use flatpak_blackbox_tests.Base.Sets.{contains-add_all}
use flatpak_blackbox_tests.Base.Sort.{sorted}
use flatpak_blackbox_tests.Json.Value.{ok, >>=-eq-ok}
use flatpak_blackbox_tests.Coverage.Records.{CaseResult, RunReport, or_empty}
use flatpak_blackbox_tests.Coverage.Subject.{is_passing}
use flatpak_blackbox_tests.Coverage.Model.{CoverageModel}
use flatpak_blackbox_tests.Coverage.Credit.{
  Credit, no_credit, mapped_to, add_equivalents_of, observed, add_requirements, credited,
  credit_passing, credit_result, credit_results, add_interface_evidence, count_one,
}
use flatpak_blackbox_tests.Coverage.Credit.Loops.{
  add_equivalents-Adds, is_invoked, add_requirements-Requires, reaches, is_observable, or_nothing,
  credited_exact,
}

-- The case covers the requirement.
abbrev pub covers : CoverageModel → CaseResult → String → Bool
covers m r i = contains i (mapped_to m r).requirements

-- The case asserts the surface, by itself or through a requirement that it covers.
abbrev pub asserts : CoverageModel → CaseResult → String → Bool
asserts m r s =
    contains s (mapped_to m r).surface_assertions
    || any (reaches m.requirements s) (mapped_to m r).requirements

abbrev pub functions_of : CaseResult → List String
functions_of r = observed "library.function." (λ e. e.api_calls) (or_empty r.evidence)

abbrev pub signals_of : CaseResult → List String
signals_of r = observed "library.signal." (λ e. e.signals) (or_empty r.evidence)

-- The case asserts the surface, and observed it if it is a function or a signal.
abbrev pub credits_surface : CoverageModel → CaseResult → String → Bool
credits_surface m r s = asserts m r s && is_observable m.surfaces (functions_of r) (signals_of r) s

-- The case maps the option as an equivalence check, and its evidence invokes the option.
abbrev pub credits_option : CoverageModel → RunReport → CaseResult → String → Bool
credits_option m report r i =
    any (λ j. j == i && is_invoked report r j) (mapped_to m r).equivalent_options

record Credits (m : CoverageModel) (report : RunReport) (r : CaseResult) (c c' : Credit)
    : Type 0 where
  passed : (i : String) → contains i c'.passed ≡ (contains i c.passed || covers m r i)
  surfaces :
      (s : String)
      → contains s c'.passed_surfaces ≡ (contains s c.passed_surfaces || credits_surface m r s)
  options :
      (i : String)
      → contains i c'.passed_equivalent
        ≡ (contains i c.passed_equivalent || credits_option m report r i)

joined :
    {x y a a' p : Bool} (o : Bool) → x ≡ (a && o) → a ≡ a' → y ≡ p → (x || y) ≡ (p || (a' && o))
joined o h k l = ground arith

credit_passing-Credits :
    (m : CoverageModel) (report : RunReport) (r : CaseResult) (c c' : Credit)
    → credit_passing m report r c ≡ ok c'
    → Credits m report r c c'
unfolding credit_passing
credit_passing-Credits m report r c c' h =
    let entry = mapped_to m r in
    let (c₁, first, h₁) = >>=-eq-ok (add_equivalents_of report r entry.equivalent_options c) _ h in
    let (found, second, h₂) =
      >>=-eq-ok (add_requirements m.requirements r entry.requirements c₁ entry.surface_assertions) _
        h₁ in
    let (surfaces, third, h₃) =
      >>=-eq-ok (credited m.surfaces (functions_of r) (signals_of r) found.1) _ h₂ in
    let a = add_equivalents-Adds report r entry.equivalent_options c c₁ first in
    let b =
      add_requirements-Requires m.requirements r entry.requirements c₁ found.0
        entry.surface_assertions found.1 second in
    let last : Credit = record (found.0) {
      passed_surfaces = add_all surfaces found.0.passed_surfaces;
      interface_evidence =
          add_interface_evidence r.identity (sorted surfaces) found.0.interface_evidence;
    } in
    let same : last ≡ c' = cc h₃ in
    subst (Credits m report r c) same (record {
      passed = λ i. b.passed i ∙ ap (λ l. contains i l || covers m r i) a.passed;
      surfaces = λ s.
          contains-add_all s surfaces found.0.passed_surfaces
          ∙ joined (is_observable m.surfaces (functions_of r) (signals_of r) s)
              (credited_exact m.surfaces (functions_of r) (signals_of r) found.1 surfaces s third)
              (b.asserts s) (ap (contains s) (b.passed_surfaces ∙ a.passed_surfaces));
      options = λ i. ap (contains i) b.passed_equivalent ∙ a.equivalent i;
    })

-- What one result adds, whatever its status.
record CreditsResult (m : CoverageModel) (report : RunReport) (r : CaseResult) (c c' : Credit)
    : Type 0 where
  passed :
      (i : String) → contains i c'.passed ≡ (contains i c.passed || (is_passing r && covers m r i))
  surfaces :
      (s : String)
      → contains s c'.passed_surfaces
        ≡ (contains s c.passed_surfaces || (is_passing r && credits_surface m r s))
  options :
      (i : String)
      → contains i c'.passed_equivalent
        ≡ (contains i c.passed_equivalent || (is_passing r && credits_option m report r i))

if_passing : {x : Bool} (a b g : Bool) → g ≡ true → x ≡ (a || b) → x ≡ (a || (g && b))
if_passing a b g h e = rw h e

if_not : (g a b : Bool) → g ≡ false → a ≡ (a || (g && b))
if_not g a b h = ground arith

credit_result-Credits :
    (m : CoverageModel) (report : RunReport) (r : CaseResult) (c c' : Credit)
    → credit_result m report r c ≡ ok c'
    → CreditsResult m report r c c'
unfolding credit_result
credit_result-Credits m report r c c' h =
    let counted : Credit = record c { statuses = count_one r.status c.statuses } in
    elim (Bool-cases (is_passing r)) [
      | inl pass ↦
          let k = credit_passing-Credits m report r counted c' (rw pass at h) in
          record {
            passed = λ i.
                if_passing (contains i c.passed) (covers m r i) (is_passing r) pass (k.passed i);
            surfaces = λ s.
                if_passing (contains s c.passed_surfaces) (credits_surface m r s) (is_passing r)
                  pass (k.surfaces s);
            options = λ i.
                if_passing (contains i c.passed_equivalent) (credits_option m report r i)
                  (is_passing r) pass (k.options i);
          }
      | inr other ↦
          let same : counted ≡ c' = cc (rw other at h) in
          subst (CreditsResult m report r c) same (record {
            passed = λ i. if_not (is_passing r) (contains i c.passed) (covers m r i) other;
            surfaces = λ s.
                if_not (is_passing r) (contains s c.passed_surfaces) (credits_surface m r s) other;
            options = λ i.
                if_not (is_passing r) (contains i c.passed_equivalent) (credits_option m report r i)
                  other;
          })
    ]

-- What the results of a run add to a credit.
pub record CreditsAll (m : CoverageModel) (report : RunReport) (rs : List CaseResult)
    (c c' : Credit) : Type 0 where
  pub passed :
      (i : String)
      → contains i c'.passed ≡ (contains i c.passed || any (λ r. is_passing r && covers m r i) rs)
  pub surfaces :
      (s : String)
      → contains s c'.passed_surfaces
        ≡ (contains s c.passed_surfaces || any (λ r. is_passing r && credits_surface m r s) rs)
  pub options :
      (i : String)
      → contains i c'.passed_equivalent ≡ (
          contains i c.passed_equivalent
          || any (λ r. is_passing r && credits_option m report r i) rs)

chain : {x y : Bool} (p q r : Bool) → x ≡ (p || q) → y ≡ (x || r) → y ≡ (p || (q || r))
chain p q r h k = ground arith

pub credit_results-CreditsAll :
    (m : CoverageModel) (report : RunReport) (rs : List CaseResult) (c c' : Credit)
    → credit_results m report rs c ≡ ok c'
    → CreditsAll m report rs c c'
unfolding credit_results
credit_results-CreditsAll m report [] c c' h =
    let same : c ≡ c' = cc h in
    subst (CreditsAll m report [] c) same (record {
      passed = λ i. or_nothing (contains i c.passed);
      surfaces = λ s. or_nothing (contains s c.passed_surfaces);
      options = λ i. or_nothing (contains i c.passed_equivalent);
    })
credit_results-CreditsAll m report (r ∷ rs) c c' h =
    let (c₁, first, rest) = >>=-eq-ok (credit_result m report r c) _ h in
    let a = credit_result-Credits m report r c c₁ first in
    let b = credit_results-CreditsAll m report rs c₁ c' rest in
    record {
      passed = λ i. chain (contains i c.passed) _ _ (a.passed i) (b.passed i);
      surfaces = λ s. chain (contains s c.passed_surfaces) _ _ (a.surfaces s) (b.surfaces s);
      options = λ i. chain (contains i c.passed_equivalent) _ _ (a.options i) (b.options i);
    }

-- From no credit, a run passes exactly the requirements that some passing case covers, the surfaces
-- that some passing case asserts, and observed if they are functions or signals, and the equivalent
-- options that some passing case maps and invoked.
pub credit_results_exact :
    (m : CoverageModel) (report : RunReport) (rs : List CaseResult) (c : Credit)
    → credit_results m report rs no_credit ≡ ok c
    → (x : String)
    → (contains x c.passed ≡ any (λ r. is_passing r && covers m r x) rs)
      × (contains x c.passed_surfaces ≡ any (λ r. is_passing r && credits_surface m r x) rs)
      × (contains x c.passed_equivalent ≡ any (λ r. is_passing r && credits_option m report r x) rs)
credit_results_exact m report rs c h x =
    let k = credit_results-CreditsAll m report rs no_credit c h in
    (k.passed x, k.surfaces x, k.options x)
