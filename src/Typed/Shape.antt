-- ===== src/Typed/Shape.antt =====
-- What the validators of one shape accept.
use flatpak_blackbox_tests.Base.{
  String, Bool, true, false, ◌&&◌, none, some, List, [], ◌∷◌, ◌≡◌, refl, sym, ap, ◌↔◌, arith,
  is_empty, has_char,
}
use flatpak_blackbox_tests.Base.Dict.{Dict, lookup}
use flatpak_blackbox_tests.Base.Int.{ℤ, pos, negsuc}
use flatpak_blackbox_tests.Json.Value.{
  Value, bool, int, text, list, dict, Items, nil, cons, Entries, end, entry, name, opaque, values,
  items, entries, FieldPath, field, ok, >>=-eq-ok, guard-eq-ok, values-items,
}
use flatpak_blackbox_tests.Json.Validate.{
  object_map, text_keys, array, string, boolean, integer, required, schema_one, is_one,
}

items-values : (vs : Items) → items (values vs) ≡ vs
items-values nil = refl
items-values (cons v vs) = ap (cons v) (items-values vs)

text_keys-eq-ok :
    (es : Entries) (p : FieldPath) (d : Dict Value) → text_keys es p ≡ ok d → es ≡ entries d
unfolding text_keys
text_keys-eq-ok end p [] h = refl
text_keys-eq-ok end p (e ∷ d) h = cc
text_keys-eq-ok (entry (name k) v es) p d h =
    let (r, found, e) = >>=-eq-ok (text_keys es p) _ h in
    let rest = text_keys-eq-ok es p r found in let same : d ≡ (k, v) ∷ r = cc e in rw same (rw rest)
text_keys-eq-ok (entry opaque v es) p d h = cc

text_keys-entries : (d : Dict Value) (p : FieldPath) → text_keys (entries d) p ≡ ok d
unfolding text_keys
text_keys-entries [] p = refl
text_keys-entries ((k, v) ∷ d) p = rw (text_keys-entries d p)

pub object_map_iff :
    (v : Value) (p : FieldPath) (d : Dict Value) → (object_map v p ≡ ok d) ↔ (v ≡ dict (entries d))
unfolding object_map
object_map_iff v p d = (there v, λ e. rw e (text_keys-entries d p))
  where
    there : (v : Value) → object_map v p ≡ ok d → v ≡ dict (entries d)
    there (dict es) h = ap dict (text_keys-eq-ok es p d h)
    there _ h = cc

pub array_iff :
    (v : Value) (p : FieldPath) (vs : List Value) → (array v p ≡ ok vs) ↔ (v ≡ list (items vs))
unfolding array
array_iff v p vs = (there v, λ e. rw e (ap ok (values-items vs)))
  where
    there : (v : Value) → array v p ≡ ok vs → v ≡ list (items vs)
    there (list ws) h = let e : values ws ≡ vs = cc h in rw (← e) (ap list (sym (items-values ws)))
    there _ h = cc

pub boolean_iff : (v : Value) (p : FieldPath) (b : Bool) → (boolean v p ≡ ok b) ↔ (v ≡ bool b)
unfolding boolean
boolean_iff (bool c) p b = (λ h. cc h, λ h. cc h)
boolean_iff _ p b = (λ h. cc, λ h. cc)

pub integer_iff : (v : Value) (p : FieldPath) (n : ℤ) → (integer v p none ≡ ok n) ↔ (v ≡ int n)
unfolding integer
integer_iff (int m) p n = (λ h. cc h, λ h. cc h)
integer_iff _ p n = (λ h. cc, λ h. cc)

pub required_iff :
    (d : Dict Value) (k : String) (p : FieldPath) (v : Value)
    → (required d k p ≡ ok v) ↔ (lookup k d ≡ some v)
unfolding required
required_iff d k p v = (λ h. ground arith, λ h. ground arith)

pub string_iff :
    (v : Value) (p : FieldPath) (nonempty : Bool) (s : String)
    → (string v p nonempty ≡ ok s)
      ↔ ((v ≡ text s) × (has_char 0 s ≡ false) × ((nonempty && is_empty s) ≡ false))
unfolding string
string_iff (text t) p nonempty s = (λ h. ground arith, λ h. ground arith)
string_iff _ p nonempty s = (λ h. cc, λ h. cc (h.0))

is_one→eq : (n : ℤ) → is_one n ≡ true → n ≡ pos 1
is_one→eq (pos n) h = ap pos (ground arith)
is_one→eq (negsuc n) h = cc

-- `schema_one` accepts exactly the integer 1.
pub schema_one_iff :
    (d : Dict Value) (p : FieldPath)
    → (schema_one d p ≡ ok tt) ↔ (lookup "schema" d ≡ some (int (pos 1)))
unfolding schema_one
schema_one_iff d p = (
  λ h.
      let (v, found, h₁) = >>=-eq-ok (required d "schema" p) _ h in
      let (n, whole, h₂) = >>=-eq-ok (integer v (field p "schema") none) _ h₁ in
      let one = is_one→eq n (guard-eq-ok (is_one n) _ tt h₂) in
      cc ((required_iff d "schema" p v).0 found, (integer_iff v (field p "schema") n).0 whole, one),
  λ h. rw ((required_iff d "schema" p (int (pos 1))).1 h),
)
