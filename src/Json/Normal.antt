-- ===== src/Json/Normal.antt =====
-- What `json_value` accepts and returns.
use flatpak_blackbox_tests.Base.{
  ℕ, ◌+◌, Bool, true, false, ◌&&◌, ◌≡◌, refl, sym, ◌↔◌, arith, inl, inr, Bool-cases, and_true,
  and_false,
}
use flatpak_blackbox_tests.Json.Value.{
  name, opaque, Value, null, bool, int, float, text, list, tuple, dict, other, Items, nil, cons,
  Entries, end, entry, FieldPath, item, field, ok, is_ok, guard, bind_fails, bind_fails_later,
}
use flatpak_blackbox_tests.Json.Validate.{
  is_finite, keys_are_text, json_value, json_items, json_entries,
}

-- JSON-compatible at every depth: finite numbers, text keys, no further types.
unfoldable mutual
  pub is_plain : Value → Bool
  is_plain (float x) = is_finite x
  is_plain (list vs) = plain_items vs
  is_plain (tuple vs) = plain_items vs
  is_plain (dict es) = plain_entries es
  is_plain other = false
  is_plain _ = true

  pub plain_items : Items → Bool
  plain_items nil = true
  plain_items (cons v vs) = is_plain v && plain_items vs

  pub plain_entries : Entries → Bool
  plain_entries end = true
  plain_entries (entry (name key) v rest) = is_plain v && plain_entries rest
  plain_entries (entry opaque v rest) = false

-- Every tuple becomes a list; nothing else changes.
unfoldable mutual
  pub to_json : Value → Value
  to_json (list vs) = list (to_json_items vs)
  to_json (tuple vs) = list (to_json_items vs)
  to_json (dict es) = dict (to_json_entries es)
  to_json v = v

  pub to_json_items : Items → Items
  to_json_items nil = nil
  to_json_items (cons v vs) = cons (to_json v) (to_json_items vs)

  pub to_json_entries : Entries → Entries
  to_json_entries end = end
  to_json_entries (entry key v rest) = entry key (to_json v) (to_json_entries rest)

plain_entries-keys : (es : Entries) → plain_entries es ≡ true → keys_are_text es ≡ true
unfolding is_plain
plain_entries-keys end h = refl
plain_entries-keys (entry (name key) v rest) h =
    plain_entries-keys rest (and_true (is_plain v) (plain_entries rest) h).1
plain_entries-keys (entry opaque v rest) h = cc

mutual
  unfolding json_value is_plain to_json

  accepts : (v : Value) (p : FieldPath) → is_plain v ≡ true → json_value v p ≡ ok (to_json v)
  accepts null p h = refl
  accepts (bool b) p h = refl
  accepts (int n) p h = refl
  accepts (float x) p h = rw h
  accepts (text s) p h = refl
  accepts (list vs) p h = rw (accepts_items vs p 0 h)
  accepts (tuple vs) p h = rw (accepts_items vs p 0 h)
  accepts (dict es) p h = rw (plain_entries-keys es h) (rw (accepts_entries es p h))
  accepts other p h = cc

  accepts_items :
      (vs : Items) (p : FieldPath) (i : ℕ)
      → plain_items vs ≡ true
      → json_items vs p i ≡ ok (to_json_items vs)
  accepts_items nil p i h = refl
  accepts_items (cons v vs) p i h =
      let (first, others) = and_true (is_plain v) (plain_items vs) h in
      rw (accepts v (item p i) first) (rw (accepts_items vs p (i + 1) others))

  accepts_entries :
      (es : Entries) (p : FieldPath)
      → plain_entries es ≡ true
      → json_entries es p ≡ ok (to_json_entries es)
  accepts_entries end p h = refl
  accepts_entries (entry (name k) v es) p h =
      let (first, others) = and_true (is_plain v) (plain_entries es) h in
      rw (accepts v (field p k) first) (rw (accepts_entries es p others))
  accepts_entries (entry opaque v es) p h = cc

mutual
  unfolding json_value is_plain

  rejects : (v : Value) (p : FieldPath) → is_plain v ≡ false → is_ok (json_value v p) ≡ false
  rejects null p h = cc
  rejects (bool b) p h = cc
  rejects (int n) p h = cc
  rejects (float x) p h = rw h
  rejects (text s) p h = cc
  rejects (list vs) p h = bind_fails (json_items vs p 0) _ (rejects_items vs p 0 h)
  rejects (tuple vs) p h = bind_fails (json_items vs p 0) _ (rejects_items vs p 0 h)
  rejects (dict es) p h =
      bind_fails_later (guard (keys_are_text es) _) _
        (λ _. bind_fails (json_entries es p) _ (rejects_entries es p h))
  rejects other p h = refl

  rejects_items :
      (vs : Items) (p : FieldPath) (i : ℕ)
      → plain_items vs ≡ false
      → is_ok (json_items vs p i) ≡ false
  rejects_items nil p i h = cc
  rejects_items (cons v vs) p i h = elim (and_false (is_plain v) (plain_items vs) h) [
    | inl first ↦ bind_fails (json_value v (item p i)) _ (rejects v (item p i) first)
    | inr others ↦
        bind_fails_later (json_value v (item p i)) _
          (λ _. bind_fails (json_items vs p (i + 1)) _ (rejects_items vs p (i + 1) others))
  ]

  rejects_entries :
      (es : Entries) (p : FieldPath) → plain_entries es ≡ false → is_ok (json_entries es p) ≡ false
  rejects_entries end p h = cc
  rejects_entries (entry (name k) v es) p h = elim (and_false (is_plain v) (plain_entries es) h) [
    | inl first ↦ bind_fails (json_value v (field p k)) _ (rejects v (field p k) first)
    | inr others ↦
        bind_fails_later (json_value v (field p k)) _
          (λ _. bind_fails (json_entries es p) _ (rejects_entries es p others))
  ]
  rejects_entries (entry opaque v es) p h = refl

-- At any path, `json_value` returns exactly for the values that are JSON-compatible at every depth,
-- and what it returns is the value with its tuples turned into lists.
pub json_value_iff :
    (v w : Value) (p : FieldPath)
    → (json_value v p ≡ ok w) ↔ ((is_plain v ≡ true) × (w ≡ to_json v))
json_value_iff v w p = elim (Bool-cases (is_plain v)) [
  | inl h ↦ (λ e. (h, ground (arith, accepts v p h)), λ e. ground (arith, accepts v p h))
  | inr h ↦ (λ e. absurd (ground (arith, rejects v p h)), λ e. absurd (ground arith))
]

mutual
  unfolding is_plain to_json

  plain-to_json : (v : Value) → is_plain (to_json v) ≡ is_plain v
  plain-to_json (list vs) = plain-to_json_items vs
  plain-to_json (tuple vs) = plain-to_json_items vs
  plain-to_json (dict es) = plain-to_json_entries es
  plain-to_json _ = refl

  plain-to_json_items : (vs : Items) → plain_items (to_json_items vs) ≡ plain_items vs
  plain-to_json_items nil = refl
  plain-to_json_items (cons v vs) = rw (plain-to_json v, plain-to_json_items vs)

  plain-to_json_entries : (es : Entries) → plain_entries (to_json_entries es) ≡ plain_entries es
  plain-to_json_entries end = refl
  plain-to_json_entries (entry (name k) v es) = rw (plain-to_json v, plain-to_json_entries es)
  plain-to_json_entries (entry opaque v es) = refl

mutual
  unfolding to_json

  to_json_idem : (v : Value) → to_json (to_json v) ≡ to_json v
  to_json_idem (list vs) = rw (to_json_idem_items vs)
  to_json_idem (tuple vs) = rw (to_json_idem_items vs)
  to_json_idem (dict es) = rw (to_json_idem_entries es)
  to_json_idem _ = refl

  to_json_idem_items : (vs : Items) → to_json_items (to_json_items vs) ≡ to_json_items vs
  to_json_idem_items nil = refl
  to_json_idem_items (cons v vs) = rw (to_json_idem v, to_json_idem_items vs)

  to_json_idem_entries : (es : Entries) → to_json_entries (to_json_entries es) ≡ to_json_entries es
  to_json_idem_entries end = refl
  to_json_idem_entries (entry k v es) = rw (to_json_idem v, to_json_idem_entries es)

-- A value that `json_value` has returned passes again, at any path, unchanged.
pub json_value_again :
    (v w : Value) (p q : FieldPath) → json_value v p ≡ ok w → json_value w q ≡ ok w
json_value_again v w p q h =
    let (plain, e) = (json_value_iff v w p).0 h in
    (json_value_iff w w q).1 (rw e (rw plain-to_json plain), rw e (sym (to_json_idem v)))
