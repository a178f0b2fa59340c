-- ===== src/Fixture/Plan/Laws.antt =====
-- A fixture parser keeps the fields of its data: none is dropped and none is made up.
use flatpak_blackbox_tests.Base.{
  String, Bool, true, false, ◌||◌, some, List, [], ◌∷◌, ◌++◌, ◌==◌, ◌≡◌, refl, sym, ◌∙◌, arith,
  Bool-cases, inl, inr, or_true, eq_iff, subst,
}
use flatpak_blackbox_tests.Base.Dict.{Dict, has, lookup}
use flatpak_blackbox_tests.Json.Value.{Value, FieldPath, field, ok, >>=-eq-ok, then-eq-ok}
use flatpak_blackbox_tests.Json.Validate.{object_map, required}
use flatpak_blackbox_tests.Typed.Shape.{required_iff}
use flatpak_blackbox_tests.Fixture.Plan.{
  Read, take, demand, Step, always, given, read_one, read_all, read_step, read_steps, known, group,
}

has-append : (k : String) (a b : Dict Value) → has k (a ++ b) ≡ (has k a || has k b)
has-append k [] b = refl
has-append k ((j, v) ∷ a) b = ground (arith, has-append k a b)

-- What a part of a parser returns has only fields of the data.
abbrev Within : Dict Value → Dict Value → Type 0
Within result data' = (k : String) → has k result ≡ true → has k data' ≡ true

append-Within : (a b data' : Dict Value) → Within a data' → Within b data' → Within (a ++ b) data'
append-Within a b data' h l k there =
    elim (or_true (has k a) (has k b) (sym (has-append k a b) ∙ there)) [
      | inl x ↦ h k x
      | inr x ↦ l k x
    ]

none-Within : {r : Dict Value} (data' : Dict Value) → ok [] ≡ ok r → Within r data'
none-Within data' h k there = absurd (cc (h, there))

one-Within :
    (key : String) (v w : Value) (data' : Dict Value)
    → lookup key data' ≡ some v
    → Within ((key, w) ∷ []) data'
one-Within key v w data' found k there = ground (arith, eq_iff key k)

read_one-Within :
    (read : Read) (data' : Dict Value) (path : FieldPath) (r : Dict Value)
    → read_one read data' path ≡ ok r
    → Within r data'
unfolding read_one
read_one-Within (take key reader) data' path r h =
    let (v, there, h₁) = >>=-eq-ok (required data' key path) _ h in
    let (w, _, h₂) = >>=-eq-ok (reader v (field path key)) _ h₁ in
    let same : (key, w) ∷ [] ≡ r = cc h₂ in
    subst (λ r. Within r data') same
      (one-Within key v w data' ((required_iff data' key path v).0 there))
read_one-Within (demand key) data' path r h =
    let (v, _, h₁) = >>=-eq-ok (required data' key path) _ h in none-Within data' h₁

read_all-Within :
    (reads : List Read) (data' : Dict Value) (path : FieldPath) (r : Dict Value)
    → read_all reads data' path ≡ ok r
    → Within r data'
unfolding read_all
read_all-Within [] data' path r h = none-Within data' h
read_all-Within (read ∷ reads) data' path r h =
    let (a, first, h₁) = >>=-eq-ok (read_one read data' path) _ h in
    let (b, second, h₂) = >>=-eq-ok (read_all reads data' path) _ h₁ in
    let same : a ++ b ≡ r = cc h₂ in
    subst (λ r. Within r data') same
      (append-Within a b data' (read_one-Within read data' path a first)
        (read_all-Within reads data' path b second))

read_step-Within :
    (step : Step) (data' : Dict Value) (path : FieldPath) (r : Dict Value)
    → read_step step data' path ≡ ok r
    → Within r data'
unfolding read_step
read_step-Within (always read) data' path r h = read_one-Within read data' path r h
read_step-Within (given key reads) data' path r h = elim (Bool-cases (has key data')) [
  | inl there ↦ read_all-Within reads data' path r (rw there at h)
  | inr absent ↦ none-Within data' (rw absent at h)
]

pub read_steps-Within :
    (steps : List Step) (data' : Dict Value) (path : FieldPath) (r : Dict Value)
    → read_steps steps data' path ≡ ok r
    → (k : String) → has k r ≡ true
    → has k data' ≡ true
unfolding read_steps
read_steps-Within [] data' path r h = none-Within data' h
read_steps-Within (step ∷ steps) data' path r h =
    let (a, first, h₁) = >>=-eq-ok (read_step step data' path) _ h in
    let (b, second, h₂) = >>=-eq-ok (read_steps steps data' path) _ h₁ in
    let same : a ++ b ≡ r = cc h₂ in
    subst (λ r. Within r data') same
      (append-Within a b data' (read_step-Within step data' path a first)
        (read_steps-Within steps data' path b second))

-- `_known` passes exactly when the result has every field of the data.
pub known-ok :
    (data' r : Dict Value) (path : FieldPath)
    → known data' r path ≡ ok tt
    → (k : String) → has k data' ≡ true
    → has k r ≡ true
unfolding known
known-ok [] r path h k there = cc there
known-ok ((j, v) ∷ data') r path h k there = elim (Bool-cases (has j r)) [
  | inr absent ↦ absurd (cc (rw absent at h))
  | inl found ↦ elim (Bool-cases (j == k)) [
    | inl e ↦ ground (arith, eq_iff j k)
    | inr other ↦ known-ok data' r path (rw found at h) k (rw other at there)
  ]
]

pub same_test : (a b : Bool) → (a ≡ true → b ≡ true) → (b ≡ true → a ≡ true) → a ≡ b
same_test true b h l = sym (h refl)
same_test false true h l = l refl
same_test false false h l = refl

-- A group that a fixture parser of these steps returns has exactly the fields of the data.
pub group_fields :
    (steps : List Step) (value : Value) (path : FieldPath) (r : Dict Value)
    → group steps value path ≡ ok r
    → (d : Dict Value) × (object_map value path ≡ ok d) × ((k : String) → has k r ≡ has k d)
unfolding group
group_fields steps value path r h =
    let (d, e, h₁) = >>=-eq-ok (object_map value path) _ h in
    let (result, filled, h₂) = >>=-eq-ok (read_steps steps d path) _ h₁ in
    let (checked, h₃) = then-eq-ok (known d result path) _ h₂ in
    let same : result ≡ r = cc h₃ in
    (
      d,
      e,
      λ k.
          subst (λ r. has k r ≡ has k d) same
            (same_test (has k result) (has k d) (read_steps-Within steps d path result filled k)
              (known-ok d result path checked k)),
    )
