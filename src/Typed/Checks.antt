-- ===== src/Typed/Checks.antt =====
-- What the loops and single checks of `_validate` accept.
use flatpak_blackbox_tests.Base.{
  ℕ, ◌+◌, String, Bool, true, false, Option, none, some, List, [], ◌∷◌, contains, ◌≡◌, refl, ◌⊎◌,
  inl, inr, arith, All,
}
use flatpak_blackbox_tests.Base.Dict.{Dict}
use flatpak_blackbox_tests.Base.Int.{ℤ}
use flatpak_blackbox_tests.Json.Value.{
  Float, Value, null, int, float, text, FieldPath, item, field, key_of, Result, ok, err, ◌>>◌,
}
use flatpak_blackbox_tests.Json.Validate.{required}
use flatpak_blackbox_tests.Typed.Forms.{Annotation, Fields, declare}
use flatpak_blackbox_tests.Typed.Shape.{required_iff, schema_one_iff}
use flatpak_blackbox_tests.Typed.Conforms.{IsRequired, HasSchemaOne}
use flatpak_blackbox_tests.Typed.{
  ignore, check_required, check_schema, check_str, check_number, check_null, check_literal, Check,
  check_items, check_entries, check_present, or_else,
}

-- A check accepts a value at a path.
abbrev pub Accepts : Result (Unit {0}) → Type 0
Accepts r = r ≡ ok tt

pub then-Accepts : (r s : Result (Unit {0})) → Accepts (r >> s) → Accepts r × Accepts s
then-Accepts (ok u) s h = (refl, h)
then-Accepts (err e) s h = cc

pub ignore-Accepts {ℓ} : {A : Type ℓ} (r : Result A) → Accepts (ignore r) → (a : A) × (r ≡ ok a)
ignore-Accepts (ok a) h = (a, refl)
ignore-Accepts (err e) h = cc

pub demanded_sound :
    (fs : Fields) (d : Dict Value) (p : FieldPath) (k : String) (req : Bool) (a : Annotation)
    → Accepts (check_required (declare k req a fs) d p)
    → IsRequired req k d × Accepts (check_required fs d p)
unfolding check_required
demanded_sound fs d p k true a h =
    let (here, rest) = then-Accepts (ignore (required d k p)) (check_required fs d p) h in
    let (v, found) = ignore-Accepts (required d k p) here in
    ((v, (required_iff d k p v).0 found), rest)
demanded_sound fs d p k false a h = (tt, h)

pub required_complete :
    (fs : Fields) (d : Dict Value) (p : FieldPath) (k : String) (req : Bool) (a : Annotation)
    → IsRequired req k d
    → Accepts (check_required fs d p)
    → Accepts (check_required (declare k req a fs) d p)
unfolding check_required
required_complete fs d p k true a (v, found) h = rw ((required_iff d k p v).1 found) h
required_complete fs d p k false a u h = h

pub schema_sound :
    (b : Bool) (d : Dict Value) (p : FieldPath) → Accepts (check_schema b d p) → HasSchemaOne b d
schema_sound true d p h = (schema_one_iff d p).0 h
schema_sound false d p h = tt

pub schema_complete :
    (b : Bool) (d : Dict Value) (p : FieldPath) → HasSchemaOne b d → Accepts (check_schema b d p)
schema_complete true d p h = (schema_one_iff d p).1 h
schema_complete false d p h = refl

module _ {P : Value → Type 0} {check : Check} where
  pub items_sound :
      ((v : Value) (p : FieldPath) → Accepts (check v p) → P v)
      → (vs : List Value) (p : FieldPath) (i : ℕ) → Accepts (check_items check vs p i)
      → All P vs
  unfolding check_items
  items_sound sound [] p i h = tt
  items_sound sound (v ∷ vs) p i h =
      let (here, rest) = then-Accepts (check v (item p i)) (check_items check vs p (i + 1)) h in
      (sound v (item p i) here, items_sound sound vs p (i + 1) rest)

  pub items_complete :
      ((v : Value) (p : FieldPath) → P v → Accepts (check v p))
      → (vs : List Value) (p : FieldPath) (i : ℕ) → All P vs
      → Accepts (check_items check vs p i)
  unfolding check_items
  items_complete complete [] p i h = refl
  items_complete complete (v ∷ vs) p i (here, rest) =
      rw (complete v (item p i) here) (items_complete complete vs p (i + 1) rest)

  pub present_sound :
      ((v : Value) (p : FieldPath) → Accepts (check v p) → P v)
      → (o : Option Value) (p : FieldPath) → Accepts (check_present check o p)
      → (v : Value) → o ≡ some v
      → P v
  present_sound sound none p h v e = cc
  present_sound sound (some w) p h v e = let same : w ≡ v = cc e in rw (← same) (sound w p h)

  pub present_complete :
      ((v : Value) (p : FieldPath) → P v → Accepts (check v p))
      → (o : Option Value) (p : FieldPath) → ((v : Value) → o ≡ some v → P v)
      → Accepts (check_present check o p)
  present_complete complete none p h = refl
  present_complete complete (some w) p h = complete w p (h w refl)

abbrev pub Both : (Value → Type 0) → (Value → Type 0) → String × Value → Type 0
Both P Q e = P (text e.0) × Q e.1

module _ {P Q : Value → Type 0} {check_key check : Check} where
  pub entries_sound :
      ((v : Value) (p : FieldPath) → Accepts (check_key v p) → P v)
      → ((v : Value) (p : FieldPath) → Accepts (check v p) → Q v)
      → (d : Dict Value) (p : FieldPath) → Accepts (check_entries check_key check d p)
      → All (Both P Q) d
  unfolding check_entries
  entries_sound sound_key sound [] p h = tt
  entries_sound sound_key sound ((k, v) ∷ d) p h =
      let (on_key, h₁) = then-Accepts (check_key (text k) (key_of p)) _ h in
      let (here, rest) = then-Accepts (check v (field p k)) _ h₁ in
      (
        (sound_key (text k) (key_of p) on_key, sound v (field p k) here),
        entries_sound sound_key sound d p rest,
      )

  pub entries_complete :
      ((v : Value) (p : FieldPath) → P v → Accepts (check_key v p))
      → ((v : Value) (p : FieldPath) → Q v → Accepts (check v p))
      → (d : Dict Value) (p : FieldPath) → All (Both P Q) d
      → Accepts (check_entries check_key check d p)
  unfolding check_entries
  entries_complete complete_key complete [] p h = refl
  entries_complete complete_key complete ((k, v) ∷ d) p ((on_key, here), rest) =
      rw (complete_key (text k) (key_of p) on_key)
        (rw (complete v (field p k) here) (entries_complete complete_key complete d p rest))

pub or_else_sound : (r s : Result (Unit {0})) → Accepts (or_else r s) → Accepts r ⊎ Accepts s
or_else_sound (ok u) s h = inl refl
or_else_sound (err e) s h = inr h

pub or_else-left : (r s : Result (Unit {0})) → Accepts r → Accepts (or_else r s)
or_else-left (ok u) s h = refl
or_else-left (err e) s h = cc

pub or_else-right : (r s : Result (Unit {0})) → Accepts s → Accepts (or_else r s)
or_else-right (ok u) s h = refl
or_else-right (err e) s h = h

pub str_sound : (v : Value) (p : FieldPath) → Accepts (check_str v p) → (s : String) × (v ≡ text s)
str_sound (text s) p h = (s, refl)
str_sound _ p h = cc

pub number_sound :
    (v : Value) (p : FieldPath)
    → Accepts (check_number v p)
    → ((n : ℤ) × (v ≡ int n)) ⊎ ((x : Float) × (v ≡ float x))
number_sound (int n) p h = inl (n, refl)
number_sound (float x) p h = inr (x, refl)
number_sound _ p h = cc

pub null_sound : (v : Value) (p : FieldPath) → Accepts (check_null v p) → v ≡ null
null_sound null p h = refl
null_sound _ p h = cc

pub literal_sound :
    (choices : List String) (v : Value) (p : FieldPath)
    → Accepts (check_literal choices v p)
    → (s : String) × (v ≡ text s) × (contains s choices ≡ true)
literal_sound choices (text s) p h = (s, refl, ground arith)
literal_sound choices _ p h = cc
