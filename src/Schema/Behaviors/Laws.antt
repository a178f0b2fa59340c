-- ===== src/Schema/Behaviors/Laws.antt =====
-- What checked behaviors and requirements have.
use flatpak_blackbox_tests.Base.{
  String, true, false, ◌&&◌, some, List, is_unique, is_empty, ◌≡◌, subst, and_true,
}
use flatpak_blackbox_tests.Base.Dict.{Dict, keys, lookup, set_default}
use flatpak_blackbox_tests.Json.Value.{
  Value, text, list, dict, nil, FieldPath, field, ok, guard-then, >>=-eq-ok, ok_injective, entries,
}
use flatpak_blackbox_tests.Json.Validate.{object_map, array, string, required}
use flatpak_blackbox_tests.Typed.{parse_typed}
use flatpak_blackbox_tests.Typed.Conforms.{Conforms}
use flatpak_blackbox_tests.Typed.Laws.{parse_typed_iff}
use flatpak_blackbox_tests.Typed.Shape.{required_iff, string_iff}
use flatpak_blackbox_tests.Schema.Index.{indexed, indexed_iff, members, IsKeyed}
use flatpak_blackbox_tests.Schema.Shapes.Catalogue.{
  executable_behavior as executable_shape, requirements_document as requirements_shape,
}
use flatpak_blackbox_tests.Schema.Behaviors.{
  typed, texts_in, is_nonempty, executable_behavior, item_id, parse_requirements,
}

-- A behavior that a runner can execute: it conforms to the declared type, its scenario is a nonempty
-- text, and its drivers are at least one and differ.
pub record IsExecutable (path : FieldPath) (r : Dict Value) : Type 0 where
  pub shape : (w : Value) × Conforms executable_shape w × (object_map w path ≡ ok r)
  pub scenario : (s : String) × (lookup "scenario" r ≡ some (text s)) × (is_empty s ≡ false)
  pub drivers :
      (raw : Value) × (vs : List Value) × (lookup "drivers" r ≡ some raw)
      × (array raw (field path "drivers") ≡ ok vs)
      × (is_nonempty (texts_in vs) ≡ true)
      × (is_unique (texts_in vs) ≡ true)

typed-Conforms :
    (d : Dict Value) (path : FieldPath) (r : Dict Value)
    → typed d executable_shape path ≡ ok r
    → (w : Value) × Conforms executable_shape w × (object_map w path ≡ ok r)
unfolding typed
typed-Conforms d path r h =
    let (w, e, h₁) = >>=-eq-ok (parse_typed (dict (entries d)) executable_shape path) _ h in
    (w, ((parse_typed_iff (dict (entries d)) w executable_shape path).0 e).2, h₁)

-- An executable behavior that is returned has the declared type, a nonempty scenario, and drivers
-- that are at least one and differ.
pub executable_behavior-IsExecutable :
    (value : Value) (path : FieldPath) (r : Dict Value)
    → executable_behavior value path ≡ ok r
    → IsExecutable path r
unfolding executable_behavior
executable_behavior-IsExecutable value path r h =
    let (d, _, h₁) = >>=-eq-ok (object_map value path) _ h in
    let (r', e, h₂) =
      >>=-eq-ok (typed (set_default "required_capabilities" (list nil) d) executable_shape path) _
        h₁ in
    let (raw, found, h₃) = >>=-eq-ok (required r' "scenario" path) _ h₂ in
    let (s, read, h₄) = >>=-eq-ok (string raw (field path "scenario") true) _ h₃ in
    let (raw', found', h₅) = >>=-eq-ok (required r' "drivers" path) _ h₄ in
    let (vs, listed, h₆) = >>=-eq-ok (array raw' (field path "drivers")) _ h₅ in
    let (test, h₇) = guard-then (is_nonempty (texts_in vs) && is_unique (texts_in vs)) _ _ h₆ in
    let (some_driver, distinct) =
      and_true (is_nonempty (texts_in vs)) (is_unique (texts_in vs)) test in
    let (same, _, filled) = (string_iff raw (field path "scenario") true s).0 read in
    subst (IsExecutable path) (ok_injective h₇) (record {
      shape = typed-Conforms (set_default "required_capabilities" (list nil) d) path r' e;
      scenario = (
        s,
        subst (λ v. lookup "scenario" r' ≡ some v) same
            ((required_iff r' "scenario" path raw).0 found),
        filled,
      );
      drivers =
          (raw', vs, (required_iff r' "drivers" path raw').0 found', listed, some_driver, distinct);
    })

-- Requirements that are returned conform to the declared document, and the requirements stand under
-- identifiers that all differ.
pub parse_requirements-distinct :
    (value : Value) (path : FieldPath) (w : Value)
    → parse_requirements value path ≡ ok w
    → Conforms requirements_shape w
      × ((r : Dict Value) × (raw : Value) × (vs : List Value) × (known : Dict Value) × (object_map w
              path
            ≡ ok r)
          × (lookup "requirements" r ≡ some raw)
          × (array raw (field path "requirements") ≡ ok vs)
          × (members item_id "requirement" known ≡ vs)
          × IsKeyed item_id "requirement" known
          × (is_unique (keys known) ≡ true))
unfolding parse_requirements
parse_requirements-distinct value path w h =
    let (w', e, h₁) = >>=-eq-ok (parse_typed value requirements_shape path) _ h in
    let (r, read, h₂) = >>=-eq-ok (object_map w' path) _ h₁ in
    let (raw, found, h₃) = >>=-eq-ok (required r "requirements" path) _ h₂ in
    let (vs, listed, h₄) = >>=-eq-ok (array raw (field path "requirements")) _ h₃ in
    let (known, i, h₅) = >>=-eq-ok (indexed item_id "requirement" vs) _ h₄ in
    let (same, keyed, unique) = (indexed_iff item_id "requirement" vs known).0 i in
    (
      subst (Conforms requirements_shape) (ok_injective h₅)
          ((parse_typed_iff value w' requirements_shape path).0 e).2,
      (
        r,
        raw,
        vs,
        known,
        subst (λ w. object_map w path ≡ ok r) (ok_injective h₅) read,
        (required_iff r "requirements" path raw).0 found,
        listed,
        same,
        keyed,
        unique,
      ),
    )
