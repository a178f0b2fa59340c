-- ===== src/Json/Value.antt =====
-- The Python objects that json_validation.py is handed, and the exceptions that validators raise.
use flatpak_blackbox_tests.Base.{
  ℕ, String, Bool, true, false, Option, List, [], ◌∷◌, ◌≡◌, refl, ap, ◌⊎◌, inl, inr,
}
use flatpak_blackbox_tests.Base.Int.{ℤ}
use flatpak_blackbox_tests.Base.Dict.{Dict}

-- Python's `float`: a sign and a magnitude, the latter by its significand and exponent.
pub data Float : Type 0 where
  nan : Float
  infinite : Bool → Float
  finite : Bool → ℕ → ℕ → Float

-- A dictionary key is a text, or an object of another type.
pub data Key : Type 0 where
  name : String → Key
  opaque : Key

-- `other` stands for an object of any further type.
mutual
  pub data Value : Type 0 where
    null : Value
    bool : Bool → Value
    int : ℤ → Value
    float : Float → Value
    text : String → Value
    list : Items → Value
    tuple : Items → Value
    dict : Entries → Value
    other : Value

  pub data Items : Type 0 where
    nil : Items
    cons : Value → Items → Items

  pub data Entries : Type 0 where
    end : Entries
    entry : Key → Value → Entries → Entries

-- `f"{path}.{key}"`, `f"{path}[{index}]"` and `f"{path} key"`, kept apart.
pub data FieldPath : Type 0 where
  root : String → FieldPath
  field : FieldPath → String → FieldPath
  item : FieldPath → ℕ → FieldPath
  key_of : FieldPath → FieldPath

-- What a message says of the field that it names.
pub data Reason : Type 0 where
  expected_object expected_string_keys expected_array : Reason
  expected_string : Bool → Reason
  expected_boolean : Reason
  expected_integer : Option ℤ → Reason
  missing_field unsupported_schema non_finite : Reason
  expected_number expected_null expected_literal no_alternative unsupported_type : Reason
  unknown_field environment_name empty_executable : Reason
  duplicate_id : String → Reason
  duplicate_key : String → Reason
  malformed_json : Reason
  unknown_command bad_drivers bad_handler bad_client_entry bad_client_source : Reason
  bad_include duplicate_include recursive_include wrong_scope : Reason
  too_few_apps wrong_layouts bad_seconds : Reason

-- A raised exception. `within` is `f"{path}: {error}"`, raised again by `decode_json`.
pub data Error : Type 0 where
  invalid : FieldPath → Reason → Error
  within : FieldPath → Error → Error
  value_error : String → Error
  key_error : String → Error
  type_error : Error

pub data Result {ℓ} (A : Type ℓ) : Type ℓ where
  ok : A → Result A
  err : Error → Result A

abbrev pub is_ok {ℓ} : {A : Type ℓ} → Result A → Bool
is_ok (ok a) = true
is_ok (err e) = false

-- An exception ends a chain.
infixl 5 ◌>>=◌ ◌>>◌
abbrev pub ◌>>=◌ {ℓ κ} : {A : Type ℓ} {C : Type κ} (r : Result A) (next : A → Result C) → Result C
ok value >>= next = next value
err raised >>= next = err raised

-- `if not test: raise error`
abbrev pub guard : (test : Bool) (error : Error) → Result (Unit {0})
guard false error = err error
guard true error = ok tt

abbrev pub ◌>>◌ {κ} : {C : Type κ} (check : Result (Unit {0})) (next : Result C) → Result C
check >> next = check >>= λ u. next

-- A chain that returns has passed its first step.
pub >>=-eq-ok {ℓ κ} :
    {A : Type ℓ} {C : Type κ} {c : C} (r : Result A) (next : A → Result C)
    (whole : (r >>= next) ≡ ok c)
    → (value : A) × (r ≡ ok value) × (next value ≡ ok c)
>>=-eq-ok (err raised) next whole = cc
>>=-eq-ok (ok value) next whole = (value, refl, whole)

pub guard-eq-ok :
    (test : Bool) (error : Error) (u : Unit {0}) (passed : guard test error ≡ ok u) → test ≡ true
guard-eq-ok false error u passed = cc
guard-eq-ok true error u passed = refl

abbrev pub values : Items → List Value
values nil = []
values (cons v vs) = v ∷ values vs

abbrev pub items : List Value → Items
items [] = nil
items (v ∷ vs) = cons v (items vs)

-- The entries of a dictionary whose keys are texts.
abbrev pub entries : Dict Value → Entries
entries [] = end
entries ((k, v) ∷ d) = entry (name k) v (entries d)

pub values-items : (vs : List Value) → values (items vs) ≡ vs
values-items [] = refl
values-items (v ∷ vs) = ap (λ ws. v ∷ ws) (values-items vs)

-- Failure of a step fails the chain.
pub bind_fails {ℓ κ} :
    {A : Type ℓ} {B : Type κ} (m : Result A) (f : A → Result B)
    → is_ok m ≡ false
    → is_ok (m >>= f) ≡ false
bind_fails (ok a) f h = cc
bind_fails (err e) f h = refl

pub bind_fails_later {ℓ κ} :
    {A : Type ℓ} {B : Type κ} (m : Result A) (f : A → Result B)
    → ((a : A) → is_ok (f a) ≡ false)
    → is_ok (m >>= f) ≡ false
bind_fails_later (ok a) f h = h a
bind_fails_later (err e) f h = refl

pub Result-cases {ℓ} : {A : Type ℓ} (r : Result A) → ((a : A) × (r ≡ ok a)) ⊎ (is_ok r ≡ false)
Result-cases (ok a) = inl (a, refl)
Result-cases (err e) = inr refl

pub not_ok {ℓ} : {A : Type ℓ} {r : Result A} {a : A} → is_ok r ≡ false → r ≡ ok a → ⊥
not_ok {r = ok b} h e = cc
not_ok {r = err f} h e = cc

-- A guarded chain that returns has passed its guard.
pub guard-then {ℓ} :
    {B : Type ℓ} (b : Bool) (e : Error) (k : Result B) {x : B}
    → (guard b e >> k) ≡ ok x
    → (b ≡ true) × (k ≡ ok x)
guard-then true e k h = (refl, h)
guard-then false e k h = cc

pub then-eq-ok {ℓ} :
    {B : Type ℓ} (r : Result (Unit {0})) (k : Result B) {x : B}
    → (r >> k) ≡ ok x
    → (r ≡ ok tt) × (k ≡ ok x)
then-eq-ok (ok u) k h = (refl, h)
then-eq-ok (err e) k h = cc

pub ok_injective {ℓ} : {A : Type ℓ} {a b : A} → ok a ≡ ok b → a ≡ b
ok_injective h = cc h
