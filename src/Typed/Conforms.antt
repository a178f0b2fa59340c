-- ===== src/Typed/Conforms.antt =====
-- What an annotation asks of a value, with no mention of paths, errors or the order of checks.
use flatpak_blackbox_tests.Base.{
  String, Bool, true, false, ◌&&◌, some, List, contains, ◌≡◌, ◌⊎◌, All,
}
use flatpak_blackbox_tests.Base.Dict.{Dict, lookup, has}
use flatpak_blackbox_tests.Base.Int.{ℤ, pos}
use flatpak_blackbox_tests.Json.Value.{
  Float, Value, null, bool, int, float, text, list, dict, items, entries,
}
use flatpak_blackbox_tests.Json.Normal.{is_plain}
use flatpak_blackbox_tests.Typed.Forms.{
  Annotation, json, str, bool_type, int_type, float_type, none_type, typed_dict, literal, list_of,
  dict_of, union, unknown, Fields, no_fields, declare, Alternatives, none_of, either, declared,
}

-- The meaning of an annotation, as a type of evidence.
abbrev pub IsRequired : Bool → String → Dict Value → Type 0
IsRequired true k d = (v : Value) × (lookup k d ≡ some v)
IsRequired false k d = Unit

abbrev pub HasSchemaOne : Bool → Dict Value → Type 0
HasSchemaOne true d = lookup "schema" d ≡ some (int (pos 1))
HasSchemaOne false d = Unit

unfoldable mutual
  pub Conforms : Annotation → Value → Type 0
  Conforms json v = is_plain v ≡ true
  Conforms str v = (s : String) × (v ≡ text s)
  Conforms bool_type v = (b : Bool) × (v ≡ bool b)
  Conforms int_type v = (n : ℤ) × (v ≡ int n)
  Conforms float_type v = ((n : ℤ) × (v ≡ int n)) ⊎ ((x : Float) × (v ≡ float x))
  Conforms none_type v = v ≡ null
  Conforms (typed_dict fs) v =
      (d : Dict Value) × (v ≡ dict (entries d))
      × ConformsFields fs d
      × HasSchemaOne (declared "schema" fs && has "schema" d) d
  Conforms (literal choices) v = (s : String) × (v ≡ text s) × (contains s choices ≡ true)
  Conforms (list_of a) v = (vs : List Value) × (v ≡ list (items vs)) × All (Conforms a) vs
  Conforms (dict_of k a) v =
      (d : Dict Value) × (v ≡ dict (entries d))
      × All (λ (e : String × Value). Conforms k (text e.0) × Conforms a e.1) d
  Conforms (union alternatives) v = ConformsOne alternatives v
  Conforms unknown v = ⊥

  pub ConformsFields : Fields → Dict Value → Type 0
  ConformsFields no_fields d = Unit
  ConformsFields (declare k req a fs) d =
      IsRequired req k d × ((v : Value) → lookup k d ≡ some v → Conforms a v) × ConformsFields fs d

  pub ConformsOne : Alternatives → Value → Type 0
  ConformsOne none_of v = ⊥
  ConformsOne (either a rest) v = Conforms a v ⊎ ConformsOne rest v
