-- ===== src/Json/Decode/Laws.antt =====
-- What `_unique_object` and `decode_json` accept and return.
use flatpak_blackbox_tests.Base.{
  String, true, false, not, List, [], ◌∷◌, ◌++◌, is_unique, ◌≡◌, refl, ◌↔◌, sym, ap, ◌∙◌, arith,
  eq_iff, eq_refl, contains, Bool-cases, inl, inr, and_true,
}
use mathlib.Core.List.{append_assoc, append-nil}
use flatpak_blackbox_tests.Base.Dict.{Dict, keys, has, insert, lookup-insert}
use flatpak_blackbox_tests.Json.Value.{Value, Value, Value, Value, ok, is_ok}
use flatpak_blackbox_tests.Json.Decode.{unique_from, unique_object}

-- A fresh key goes to the end.
insert_fresh :
    (k : String) (v : Value) (d : Dict Value) → has k d ≡ false → insert k v d ≡ d ++ (k, v) ∷ []
insert_fresh k v [] h = refl
insert_fresh k v ((j, w) ∷ d) h = ground (arith, insert_fresh k v d)

-- No key of `pairs` is in `result`.
abbrev IsFresh : List (String × Value) → Dict Value → Type 0
IsFresh pairs result = (k : String) → contains k (keys pairs) ≡ true → has k result ≡ false

contains_head : (k : String) (ks : List String) → contains k (k ∷ ks) ≡ true
contains_head k ks = rw eq_refl

fresh_after :
    (k j : String) (v : Value) (d : Dict Value) (ks : List String)
    → not (contains k ks) ≡ true
    → contains j ks ≡ true
    → has j d ≡ false
    → has j (insert k v d) ≡ false
fresh_after k j v d ks out c h = ground (arith, lookup-insert k j v d, eq_iff k j)

unique_from_ok :
    (d ps : Dict Value)
    → is_unique (keys ps) ≡ true
    → IsFresh ps d
    → unique_from d ps ≡ ok (d ++ ps)
unfolding unique_from
unique_from_ok d [] u f = ap ok (sym (append-nil d))
unique_from_ok d ((k, v) ∷ ps) u f =
    let (out, rest) = and_true (not (contains k (keys ps))) (is_unique (keys ps)) u in
    let new = f k (contains_head k (keys ps)) in
    rw new (
      unique_from_ok (insert k v d) ps rest
        (λ j c. fresh_after k j v d (keys ps) out c (f j (ground arith)))
      ∙ ap ok (rw (insert_fresh k v d new) (append_assoc d ((k, v) ∷ []) ps)))

unique_from_clash :
    (k : String) (d ps : Dict Value)
    → contains k (keys ps) ≡ true
    → has k d ≡ true
    → is_ok (unique_from d ps) ≡ false
unfolding unique_from
unique_from_clash k d [] c h = cc
unique_from_clash k d ((j, v) ∷ ps) c h =
    ground (arith, unique_from_clash k (insert j v d) ps, lookup-insert j k v d, eq_iff j k)

unique_from_repeats :
    (d ps : Dict Value) → is_unique (keys ps) ≡ false → is_ok (unique_from d ps) ≡ false
unfolding unique_from
unique_from_repeats d [] u = cc
unique_from_repeats d ((k, v) ∷ ps) u = ground (
  arith,
  unique_from_clash k (insert k v d) ps,
  lookup-insert k k v d,
  eq_iff k k,
  unique_from_repeats (insert k v d) ps,
)

-- `_unique_object` returns exactly for pairs whose keys all differ, and then it returns the pairs in
-- the order in which the text has them.
pub unique_object_iff :
    (pairs d : Dict Value)
    → (unique_object pairs ≡ ok d) ↔ ((is_unique (keys pairs) ≡ true) × (d ≡ pairs))
unfolding unique_object
unique_object_iff pairs d = elim (Bool-cases (is_unique (keys pairs))) [
  | inl u ↦
      let e = unique_from_ok [] pairs u (λ k c. refl) in
      (λ h. (u, ground (arith, e)), λ h. ground (arith, e))
  | inr u ↦
      let e = unique_from_repeats [] pairs u in
      (λ h. absurd (ground (arith, e)), λ h. absurd (ground arith))
]
