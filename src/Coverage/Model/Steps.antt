-- ===== src/Coverage/Model/Steps.antt =====
-- What each check of `CoverageModel.__init__` establishes.
use flatpak_blackbox_tests.Base.{
  String, true, false, not, ◌&&◌, List, [], ◌∷◌, ◌++◌, ◌==◌, eq_iff, contains, add, add_all,
  is_empty, ◌≡◌, subst, arith, All, and_true, or_true, Bool-cases, Option-cases, inl, inr,
}
use flatpak_blackbox_tests.Base.Dict.{Dict, lookup}
use flatpak_blackbox_tests.Json.Value.{Result, ok, >>=-eq-ok, guard-eq-ok, guard-then, then-eq-ok}
use flatpak_blackbox_tests.Coverage.Records.{
  Surface, Requirement, SurfaceAssertion, RequirementsDocument, CaseIdentity,
}
use flatpak_blackbox_tests.Coverage.Model.{
  profiles, each, subscript, is_kind_of, check_reference, check_requirement, check_document,
  has_contract, has_capabilities, is_nonempty, check_mapped, has_kind, add_assertions,
  required_surfaces,
}
use flatpak_blackbox_tests.Coverage.Model.WellFormed.{HasSurface, IsCoverable, IsNotRequired}

pub each-All {ℓ} :
    {A : Type ℓ} (f : A → Result (Unit {0})) (xs : List A)
    → each f xs ≡ ok tt
    → All (λ x. f x ≡ ok tt) xs
each-All f [] h = tt
each-All f (x ∷ xs) h = let (u, here, rest) = >>=-eq-ok (f x) _ h in (here, each-All f xs rest)

pub All-map {ℓ κ μ} :
    {A : Type ℓ} {P : A → Type κ} {Q : A → Type μ}
    → ((a : A) → P a → Q a)
    → (xs : List A) → All P xs
    → All Q xs
All-map f [] h = tt
All-map f (x ∷ xs) (h, hs) = (f x h, All-map f xs hs)

pub All-append {ℓ κ} :
    {A : Type ℓ} (P : A → Type κ) (xs ys : List A) → All P xs → All P ys → All P (xs ++ ys)
All-append P [] ys h k = k
All-append P (x ∷ xs) ys (h, hs) k = (h, All-append P xs ys hs k)

pub reference-HasSurface :
    (surfaces : Dict Surface) (interface i : String)
    → check_reference surfaces interface i ≡ ok tt
    → HasSurface surfaces (is_kind_of interface) i
unfolding check_reference
reference-HasSurface surfaces interface i h = elim (Option-cases (lookup i surfaces)) [
  | inl e ↦ absurd (cc (rw (e, check_reference) at h))
  | inr (s, e) ↦
      (s, e, guard-eq-ok (is_kind_of interface s.kind) _ tt (rw (e, check_reference) at h))
]

abbrev pub Refers : Dict Surface → Requirement → Type 0
Refers surfaces r = All (HasSurface surfaces (is_kind_of r.interface)) r.surfaces

pub requirement-Refers :
    (surfaces : Dict Surface) (interface : String) (r : Requirement)
    → check_requirement surfaces interface r ≡ ok tt
    → Refers surfaces r
unfolding check_requirement
requirement-Refers surfaces interface r h =
    let (fits, h₁) = guard-then (r.interface == interface && contains r.profile profiles) _ _ h in
    let (_, h₂) = guard-then (has_contract r) _ _ h₁ in
    let (_, h₃) = guard-then (has_capabilities r) _ _ h₂ in
    let (_, h₄) = guard-then (is_nonempty r.surfaces) _ _ h₃ in
    let same : interface ≡ r.interface = ground (arith, eq_iff r.interface interface) in
    subst (λ j. All (HasSurface surfaces (is_kind_of j)) r.surfaces) same
      (All-map (reference-HasSurface surfaces interface) r.surfaces
        (each-All (check_reference surfaces interface) r.surfaces h₄))

pub document-Refers :
    (surfaces : Dict Surface) (interface : String) (document : RequirementsDocument)
    (rs : List Requirement)
    → check_document surfaces interface document ≡ ok rs
    → All (Refers surfaces) rs
unfolding check_document
document-Refers surfaces interface document rs h =
    let (_, h₁) = guard-then (document.scope == interface) _ _ h in
    let (checked, h₂) =
      then-eq-ok (each (check_requirement surfaces interface) document.requirements) _ h₁ in
    let same : document.requirements ≡ rs = cc h₂ in
    subst (All (Refers surfaces)) same (
      All-map (requirement-Refers surfaces interface) document.requirements
        (each-All (check_requirement surfaces interface) document.requirements checked))

pub mapped-IsCoverable :
    (requirements : Dict Requirement) (key : CaseIdentity) (i : String)
    → check_mapped requirements key i ≡ ok tt
    → IsCoverable requirements key i
unfolding check_mapped
mapped-IsCoverable requirements key i h = elim (Option-cases (lookup i requirements)) [
  | inl e ↦ absurd (cc (rw (e, check_mapped) at h))
  | inr (r, e) ↦
      let fits =
        guard-eq-ok (r.interface == key.driver && contains r.profile ("any" ∷ key.profile ∷ [])) _
          tt (rw (e, check_mapped) at h) in
      let (same, profile) =
        and_true (r.interface == key.driver) (contains r.profile ("any" ∷ key.profile ∷ [])) fits in
      (r, e, (eq_iff r.interface key.driver).0 same, profile)
]

pub add-All {ℓ} :
    (P : String → Type ℓ) (x : String) (xs : List String) → P x → All P xs → All P (add x xs)
add-All P x xs h hs = elim (Bool-cases (contains x xs)) [ inl e ↦ rw e hs | inr e ↦ rw e (h, hs) ]

pub assertions-All :
    (surfaces : Dict Surface) (allowed : List String) (as' : List SurfaceAssertion)
    (old new : List String)
    → add_assertions surfaces allowed as' old ≡ ok new
    → All (λ i. has_kind surfaces allowed i ≡ true) old
    → All (λ i. has_kind surfaces allowed i ≡ true) new
unfolding add_assertions
assertions-All surfaces allowed [] old new h hold = let same : old ≡ new = cc h in rw (← same) hold
assertions-All surfaces allowed (a ∷ rest) old new h hold =
    elim (Bool-cases
      (has_kind surfaces allowed a.id && (not (is_empty a.rationale) && not (contains a.id old)))) [
        | inl good ↦ assertions-All surfaces allowed rest (add a.id old) new (rw good at h) (
            add-All (λ i. has_kind surfaces allowed i ≡ true) a.id old
              (and_true (has_kind surfaces allowed a.id) _ good).0 hold)
        | inr bad ↦ absurd (cc (rw bad at h))
      ]

pub contains-add :
    (i x : String) (xs : List String) → contains i xs ≡ true → contains i (add x xs) ≡ true
contains-add i x xs h = ground arith

pub contains-add_all_right :
    (i : String) (xs ys : List String) → contains i ys ≡ true → contains i (add_all xs ys) ≡ true
contains-add_all_right i [] ys h = h
contains-add_all_right i (x ∷ xs) ys h =
    contains-add i x (add_all xs ys) (contains-add_all_right i xs ys h)

pub contains-add_self :
    (i x : String) (xs : List String) → (x == i) ≡ true → contains i (add x xs) ≡ true
contains-add_self i x xs h = ground (arith, eq_iff x i)

pub contains-add_all_left :
    (i : String) (xs ys : List String) → contains i xs ≡ true → contains i (add_all xs ys) ≡ true
contains-add_all_left i [] ys h = cc
contains-add_all_left i (x ∷ xs) ys h = elim (or_true (x == i) (contains i xs) h) [
  | inl e ↦ contains-add_self i x (add_all xs ys) e
  | inr e ↦ contains-add i x (add_all xs ys) (contains-add_all_left i xs ys e)
]

-- What a union lacks, both parts lack.
pub absent_left :
    (i : String) (xs ys : List String) → contains i (add_all xs ys) ≡ false → contains i xs ≡ false
absent_left i xs ys h = ground (arith, contains-add_all_left i xs ys)

pub absent_right :
    (i : String) (xs ys : List String) → contains i (add_all xs ys) ≡ false → contains i ys ≡ false
absent_right i xs ys h = ground (arith, contains-add_all_right i xs ys)

pub required-IsNotRequired :
    (requirements : Dict Requirement) (ids : List String) (required : List String) (i : String)
    → required_surfaces requirements ids ≡ ok required
    → contains i required ≡ false
    → IsNotRequired requirements ids i
unfolding required_surfaces
required-IsNotRequired requirements [] required i h out = tt
required-IsNotRequired requirements (j ∷ ids) required i h out =
    let (r, found, h₁) = >>=-eq-ok (subscript j requirements) _ h in
    let (rest, later, h₂) = >>=-eq-ok (required_surfaces requirements ids) _ h₁ in
    let same : add_all r.surfaces rest ≡ required = cc h₂ in
    let out' : contains i (add_all r.surfaces rest) ≡ false = rw same out in
    (
      (r, ground arith, absent_left i r.surfaces rest out'),
      required-IsNotRequired requirements ids rest i later (absent_right i r.surfaces rest out'),
    )
