-- ===== src/Typed/Laws.antt =====
-- `_validate` accepts what conforms, and `parse_typed` returns it.
use flatpak_blackbox_tests.Base.{true, ◌&&◌, none, ◌≡◌, refl, sym, subst, ◌∙◌, ◌↔◌, inl, inr}
use flatpak_blackbox_tests.Base.Dict.{Dict, lookup, has}
use flatpak_blackbox_tests.Json.Value.{Value, FieldPath, field, ok, >>=-eq-ok}
use flatpak_blackbox_tests.Json.Validate.{object_map, array, boolean, integer, json_value}
use flatpak_blackbox_tests.Json.Normal.{is_plain, to_json, json_value_iff, json_value_again}
use flatpak_blackbox_tests.Typed.Forms.{
  Annotation, json, str, bool_type, int_type, float_type, none_type, typed_dict, literal, list_of,
  dict_of, union, unknown, Fields, no_fields, declare, Alternatives, none_of, either, declared,
}
use flatpak_blackbox_tests.Typed.Shape.{object_map_iff, array_iff, boolean_iff, integer_iff}
use flatpak_blackbox_tests.Typed.Conforms.{Conforms, ConformsFields, ConformsOne}
use flatpak_blackbox_tests.Typed.{
  check_required, check_present, validate, check_fields, try_each, parse_typed,
}
use flatpak_blackbox_tests.Typed.Checks.{
  Accepts, then-Accepts, ignore-Accepts, demanded_sound, required_complete, schema_sound,
  schema_complete, items_sound, items_complete, present_sound, present_complete, entries_sound,
  entries_complete, or_else_sound, or_else-left, or_else-right, str_sound, number_sound, null_sound,
  literal_sound,
}

mutual
  unfolding validate Conforms

  sound : (a : Annotation) (v : Value) (p : FieldPath) → Accepts (validate a v p) → Conforms a v
  sound json v p h =
      let (w, e) = ignore-Accepts (json_value v p) h in ((json_value_iff v w p).0 e).0
  sound str v p h = str_sound v p h
  sound bool_type v p h =
      let (b, e) = ignore-Accepts (boolean v p) h in (b, (boolean_iff v p b).0 e)
  sound int_type v p h =
      let (n, e) = ignore-Accepts (integer v p none) h in (n, (integer_iff v p n).0 e)
  sound float_type v p h = number_sound v p h
  sound none_type v p h = null_sound v p h
  sound (typed_dict fs) v p h =
      let (d, found, h₁) = >>=-eq-ok (object_map v p) _ h in
      let (all_there, h₂) = then-Accepts (check_required fs d p) _ h₁ in
      let (typed, h₃) = then-Accepts (check_fields fs d p) _ h₂ in
      (
        d,
        (object_map_iff v p d).0 found,
        fields_sound fs d p all_there typed,
        schema_sound (declared "schema" fs && has "schema" d) d p h₃,
      )
  sound (literal choices) v p h = literal_sound choices v p h
  sound (list_of a) v p h =
      let (vs, found, h₁) = >>=-eq-ok (array v p) _ h in
      (vs, (array_iff v p vs).0 found, items_sound (sound a) vs p 0 h₁)
  sound (dict_of k a) v p h =
      let (d, found, h₁) = >>=-eq-ok (object_map v p) _ h in
      (d, (object_map_iff v p d).0 found, entries_sound (sound k) (sound a) d p h₁)
  sound (union alternatives) v p h = one_sound alternatives v p h
  sound unknown v p h = cc

  fields_sound :
      (fs : Fields) (d : Dict Value) (p : FieldPath)
      → Accepts (check_required fs d p)
      → Accepts (check_fields fs d p)
      → ConformsFields fs d
  fields_sound no_fields d p h t = tt
  fields_sound (declare k req a fs) d p h t =
      let (there, others) = demanded_sound fs d p k req a h in
      let (here, rest) =
        then-Accepts (check_present (validate a) (lookup k d) (field p k)) (check_fields fs d p)
          t in
      (
        there,
        present_sound (sound a) (lookup k d) (field p k) here,
        fields_sound fs d p others rest,
      )

  one_sound :
      (alts : Alternatives) (v : Value) (p : FieldPath)
      → Accepts (try_each alts v p)
      → ConformsOne alts v
  one_sound none_of v p h = cc
  one_sound (either a rest) v p h = elim (or_else_sound (validate a v p) (try_each rest v p) h) [
    | inl here ↦ inl (sound a v p here)
    | inr there ↦ inr (one_sound rest v p there)
  ]

all_required :
    (fs : Fields) (d : Dict Value) (p : FieldPath)
    → ConformsFields fs d
    → Accepts (check_required fs d p)
unfolding Conforms check_required
all_required no_fields d p h = refl
all_required (declare k req a fs) d p (there, _, others) =
    required_complete fs d p k req a there (all_required fs d p others)

mutual
  unfolding validate Conforms

  complete : (a : Annotation) (v : Value) (p : FieldPath) → Conforms a v → Accepts (validate a v p)
  complete json v p h = rw ((json_value_iff v (to_json v) p).1 (h, refl))
  complete str v p (s, e) = rw e
  complete bool_type v p (b, e) = rw ((boolean_iff v p b).1 e)
  complete int_type v p (n, e) = rw ((integer_iff v p n).1 e)
  complete float_type v p (inl (n, e)) = rw e
  complete float_type v p (inr (x, e)) = rw e
  complete none_type v p e = rw e
  complete (typed_dict fs) v p (d, e, fields, one) = rw ((object_map_iff v p d).1 e) (
      rw (all_required fs d p fields) (
        rw (fields_complete fs d p fields)
          (schema_complete (declared "schema" fs && has "schema" d) d p one)))
  complete (literal choices) v p (s, e, among) = rw e (rw among)
  complete (list_of a) v p (vs, e, h) =
      rw ((array_iff v p vs).1 e) (items_complete (complete a) vs p 0 h)
  complete (dict_of k a) v p (d, e, h) =
      rw ((object_map_iff v p d).1 e) (entries_complete (complete k) (complete a) d p h)
  complete (union alternatives) v p h = one_complete alternatives v p h
  complete unknown v p h = absurd h

  fields_complete :
      (fs : Fields) (d : Dict Value) (p : FieldPath)
      → ConformsFields fs d
      → Accepts (check_fields fs d p)
  fields_complete no_fields d p h = refl
  fields_complete (declare k req a fs) d p (_, here, others) =
      rw (present_complete (complete a) (lookup k d) (field p k) here)
        (fields_complete fs d p others)

  one_complete :
      (alts : Alternatives) (v : Value) (p : FieldPath)
      → ConformsOne alts v
      → Accepts (try_each alts v p)
  one_complete none_of v p h = absurd h
  one_complete (either a rest) v p (inl here) =
      or_else-left (validate a v p) (try_each rest v p) (complete a v p here)
  one_complete (either a rest) v p (inr there) =
      or_else-right (validate a v p) (try_each rest v p) (one_complete rest v p there)

-- At any path, `_validate` accepts a value exactly when the value conforms to the annotation: the
-- required fields are there, the declared fields that are there conform, a declared `schema` is 1,
-- and so on through lists, objects and unions.
pub validate_iff :
    (a : Annotation) (v : Value) (p : FieldPath) → (validate a v p ≡ ok tt) ↔ Conforms a v
validate_iff a v p = (sound a v p, complete a v p)

-- `parse_typed` returns exactly for the JSON-compatible values whose JSON form conforms to the
-- schema, and returns that form, extension fields included.
pub parse_typed_iff :
    (v w : Value) (schema : Annotation) (p : FieldPath)
    → (parse_typed v schema p ≡ ok w) ↔ ((is_plain v ≡ true) × (w ≡ to_json v) × Conforms schema w)
unfolding parse_typed
parse_typed_iff v w schema p = (
  λ h.
      let (n, e, h₁) = >>=-eq-ok (json_value v p) _ h in
      let (u, checked, h₂) = >>=-eq-ok (validate schema n p) _ h₁ in
      let same : n ≡ w = cc h₂ in
      let (plain, form) = (json_value_iff v n p).0 e in
      (plain, sym same ∙ form, subst (Conforms schema) same (sound schema n p checked)),
  λ (plain, form, fits).
      rw ((json_value_iff v w p).1 (plain, form)) (rw (complete schema w p fits)),
)

-- A value that `parse_typed` has returned passes again under the same schema, at any path, unchanged.
pub parse_typed_again :
    (v w : Value) (schema : Annotation) (p q : FieldPath)
    → parse_typed v schema p ≡ ok w
    → parse_typed w schema q ≡ ok w
parse_typed_again v w schema p q h =
    let (plain, form, fits) = (parse_typed_iff v w schema p).0 h in
    let again = json_value_again v w p q ((json_value_iff v w p).1 (plain, form)) in
    let (plain', form') = (json_value_iff w w q).0 again in
    (parse_typed_iff w w schema q).1 (plain', form', fits)
