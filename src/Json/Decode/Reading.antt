-- ===== src/Json/Decode/Reading.antt =====
-- What a decoded text means, and when `decode_json` returns it.
use flatpak_blackbox_tests.Base.{
  String, Bool, true, false, ◌&&◌, Option, none, some, List, [], ◌∷◌, is_unique, ◌≡◌, refl, ◌↔◌, ap,
  ◌∙◌, arith, Bool-cases, inl, inr, and_true, and_false, and_false_left, sym,
}
use flatpak_blackbox_tests.Base.Dict.{Dict, keys}
use flatpak_blackbox_tests.Json.Value.{
  Value, null, bool, int, float, text, list, dict, Items, nil, cons, FieldPath, Result, ok, err,
  ◌>>=◌, entries, is_ok, bind_fails, bind_fails_later, not_ok, Result-cases,
}
use flatpak_blackbox_tests.Json.Validate.{json_value}
use flatpak_blackbox_tests.Json.Normal.{
  is_plain, to_json, to_json_items, to_json_entries, json_value_iff,
}
use flatpak_blackbox_tests.Json.Decode.{
  Document, Elements, Members, null_literal, bool_literal, int_literal, float_literal, text_literal,
  array_of, object_of, no_element, element, no_member, member, unique_object, scanned,
  scanned_elements, scanned_members, located, scan, decode_json,
}
use flatpak_blackbox_tests.Json.Decode.Laws.{unique_object_iff}

-- The value that a document denotes.
unfoldable mutual
  pub meaning : Document → Value
  meaning null_literal = null
  meaning (bool_literal b) = bool b
  meaning (int_literal n) = int n
  meaning (float_literal x) = float x
  meaning (text_literal s) = text s
  meaning (array_of es) = list (meaning_elements es)
  meaning (object_of ms) = dict (entries (meaning_members ms))

  pub meaning_elements : Elements → Items
  meaning_elements no_element = nil
  meaning_elements (element e es) = cons (meaning e) (meaning_elements es)

  pub meaning_members : Members → Dict Value
  meaning_members no_member = []
  meaning_members (member k e ms) = (k, meaning e) ∷ meaning_members ms

abbrev pub member_keys : Members → List String
member_keys no_member = []
member_keys (member k e ms) = k ∷ member_keys ms

-- No object, at any depth, names a key twice.
unfoldable mutual
  pub distinct_keys : Document → Bool
  distinct_keys (array_of es) = distinct_elements es
  distinct_keys (object_of ms) = is_unique (member_keys ms) && distinct_members ms
  distinct_keys _ = true

  pub distinct_elements : Elements → Bool
  distinct_elements no_element = true
  distinct_elements (element e es) = distinct_keys e && distinct_elements es

  pub distinct_members : Members → Bool
  distinct_members no_member = true
  distinct_members (member k e ms) = distinct_keys e && distinct_members ms

keys-meaning : (ms : Members) → keys (meaning_members ms) ≡ member_keys ms
unfolding meaning
keys-meaning no_member = refl
keys-meaning (member k e ms) = ap (λ ks. k ∷ ks) (keys-meaning ms)

mutual
  unfolding scanned meaning distinct_keys

  scans : (e : Document) → distinct_keys e ≡ true → scanned e ≡ ok (meaning e)
  scans (array_of es) h = rw (scans_elements es h)
  scans (object_of ms) h =
      let (unique, deep) = and_true (is_unique (member_keys ms)) (distinct_members ms) h in
      rw (scans_members ms deep) (
        rw (
          (unique_object_iff (meaning_members ms) (meaning_members ms)).1
            (rw (keys-meaning ms) unique, refl)))
  scans null_literal h = refl
  scans (bool_literal b) h = refl
  scans (int_literal b) h = refl
  scans (float_literal b) h = refl
  scans (text_literal b) h = refl

  scans_elements :
      (es : Elements) → distinct_elements es ≡ true → scanned_elements es ≡ ok (meaning_elements es)
  scans_elements no_element h = refl
  scans_elements (element e es) h =
      let (first, others) = and_true (distinct_keys e) (distinct_elements es) h in
      rw (scans e first) (rw (scans_elements es others))

  scans_members :
      (ms : Members) → distinct_members ms ≡ true → scanned_members ms ≡ ok (meaning_members ms)
  scans_members no_member h = refl
  scans_members (member k e ms) h =
      let (first, others) = and_true (distinct_keys e) (distinct_members ms) h in
      rw (scans e first) (rw (scans_members ms others))

repeated_keys :
    (pairs : Dict Value) → is_unique (keys pairs) ≡ false → is_ok (unique_object pairs) ≡ false
repeated_keys pairs h = elim (Result-cases (unique_object pairs)) [
  | inl (d, e) ↦ absurd (ground (arith, (unique_object_iff pairs d).0 e))
  | inr e ↦ e
]

mutual
  unfolding scanned distinct_keys

  stops : (e : Document) → distinct_keys e ≡ false → is_ok (scanned e) ≡ false
  stops (array_of es) h = bind_fails (scanned_elements es) _ (stops_elements es h)
  stops (object_of ms) h = elim (Bool-cases (distinct_members ms)) [
    | inr deep ↦ bind_fails (scanned_members ms) _ (stops_members ms deep)
    | inl deep ↦ rw (scans_members ms deep) (
        bind_fails (unique_object (meaning_members ms)) _ (
          repeated_keys (meaning_members ms) (
            rw (keys-meaning ms)
              (and_false_left (is_unique (member_keys ms)) (distinct_members ms) h deep))))
  ]
  stops null_literal h = cc
  stops (bool_literal b) h = cc
  stops (int_literal b) h = cc
  stops (float_literal b) h = cc
  stops (text_literal b) h = cc

  stops_elements :
      (es : Elements) → distinct_elements es ≡ false → is_ok (scanned_elements es) ≡ false
  stops_elements no_element h = cc
  stops_elements (element e es) h = elim (and_false (distinct_keys e) (distinct_elements es) h) [
    | inl first ↦ bind_fails (scanned e) _ (stops e first)
    | inr others ↦
        bind_fails_later (scanned e) _
          (λ _. bind_fails (scanned_elements es) _ (stops_elements es others))
  ]

  stops_members : (ms : Members) → distinct_members ms ≡ false → is_ok (scanned_members ms) ≡ false
  stops_members no_member h = cc
  stops_members (member k e ms) h = elim (and_false (distinct_keys e) (distinct_members ms) h) [
    | inl first ↦ bind_fails (scanned e) _ (stops e first)
    | inr others ↦
        bind_fails_later (scanned e) _
          (λ _. bind_fails (scanned_members ms) _ (stops_members ms others))
  ]

mutual
  unfolding meaning to_json

  to_json-meaning : (e : Document) → to_json (meaning e) ≡ meaning e
  to_json-meaning (array_of es) = ap list (to_json-elements es)
  to_json-meaning (object_of ms) = ap dict (to_json-members ms)
  to_json-meaning null_literal = refl
  to_json-meaning (bool_literal b) = refl
  to_json-meaning (int_literal b) = refl
  to_json-meaning (float_literal b) = refl
  to_json-meaning (text_literal b) = refl

  to_json-elements : (es : Elements) → to_json_items (meaning_elements es) ≡ meaning_elements es
  to_json-elements no_element = refl
  to_json-elements (element e es) = rw (to_json-meaning e, to_json-elements es)

  to_json-members :
      (ms : Members) → to_json_entries (entries (meaning_members ms)) ≡ entries (meaning_members ms)
  to_json-members no_member = refl
  to_json-members (member k e ms) = rw (to_json-meaning e, to_json-members ms)

located-eq-ok : (path : FieldPath) (r : Result Value) (w : Value) → located path r ≡ ok w → r ≡ ok w
located-eq-ok path (ok v) w h = h
located-eq-ok path (err e) w h = cc

abbrev Denotes : Option Document → Value → Type 0
Denotes o w =
    (e : Document) × (o ≡ some e) × (distinct_keys e ≡ true) × (is_plain w ≡ true) × (w ≡ meaning e)

decoded→Denotes :
    (o : Option Document) (path : FieldPath) (w : Value)
    → (do raw ← scan o; json_value raw path) ≡ ok w
    → Denotes o w
decoded→Denotes none path w h = cc
decoded→Denotes (some e) path w h = elim (Bool-cases (distinct_keys e)) [
  | inl unique ↦
      let read : json_value (meaning e) path ≡ ok w = rw (scans e unique) at h in
      let (plain, same) = (json_value_iff (meaning e) w path).0 read in
      let same' : w ≡ meaning e = same ∙ to_json-meaning e in
      (e, refl, unique, rw same' plain, same')
  | inr repeated ↦ absurd (not_ok (bind_fails (scanned e) _ (stops e repeated)) h)
]

Denotes→decoded :
    (o : Option Document) (path : FieldPath) (w : Value)
    → Denotes o w
    → located path (do raw ← scan o; json_value raw path) ≡ ok w
Denotes→decoded o path w (e, found, unique, plain, same) =
    rw (found, scans e unique)
      (rw
        ((json_value_iff (meaning e) w path).1 (rw (← same) plain, same ∙ sym (to_json-meaning e))))

-- A text decodes, at any path, exactly when it scans to a document in which no object repeats a key
-- and every number is finite; the result is the value that this document denotes.
pub decode_json_iff :
    (loads : String → Option Document) (source : String) (path : FieldPath) (w : Value)
    → (decode_json loads source path ≡ ok w) ↔ (
        (e : Document) × (loads source ≡ some e)
        × (distinct_keys e ≡ true)
        × (is_plain w ≡ true)
        × (w ≡ meaning e))
unfolding decode_json
decode_json_iff loads source path w = (
  λ h. decoded→Denotes (loads source) path w (located-eq-ok path _ w h),
  Denotes→decoded (loads source) path w,
)
