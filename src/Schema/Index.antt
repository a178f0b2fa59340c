-- ===== src/Schema/Index.antt =====
-- catalogue_schema.py: `indexed`, for items of any type whose `id` can be read.
use flatpak_blackbox_tests.Base.{
  String, true, false, not, some, List, [], ◌∷◌, ◌++◌, ◌==◌, eq_iff, eq_refl, if◌then◌else◌,
  is_unique, contains, ◌≡◌, refl, ap, sym, subst, ◌∙◌, ◌↔◌, arith, All, Bool-cases, inl, inr,
  and_true,
}
use mathlib.Core.List.{append_assoc, append-nil}
use flatpak_blackbox_tests.Base.Dict.{Dict, keys, has, insert, lookup, lookup-insert}
use flatpak_blackbox_tests.Json.Value.{
  Value, root, field, duplicate_id, invalid, Result, ok, err, ◌>>=◌, >>=-eq-ok,
}
use flatpak_blackbox_tests.Json.Validate.{string}

module _ {A : Type 0} (id_of : A → Result Value) (label : String) where
  abbrev pub read_id : A → Result String
  read_id item = do raw ← id_of item; string raw (field (root label) "id") true

  unfoldable pub indexed_from : Dict A → List A → Result (Dict A)
  indexed_from result [] = ok result
  indexed_from result (item ∷ rest) = do
    identifier ← read_id item
    let others = indexed_from (insert identifier item result) rest
    if has identifier result then err (invalid (root label) (duplicate_id identifier)) else others

  unfoldable pub indexed : List A → Result (Dict A)
  unfolding indexed_from
  indexed items = indexed_from [] items

  abbrev pub members : Dict A → List A
  members [] = []
  members ((k, a) ∷ d) = a ∷ members d

  -- Each item stands under its own identifier.
  abbrev pub IsKeyed : Dict A → Type 0
  IsKeyed [] = Unit
  IsKeyed ((k, a) ∷ d) = (read_id a ≡ ok k) × IsKeyed d

  insert_new : (k : String) (a : A) (d : Dict A) → has k d ≡ false → insert k a d ≡ d ++ (k, a) ∷ []
  insert_new k a [] h = refl
  insert_new k a ((j, b) ∷ d) h = ground (arith, insert_new k a d)

  has-insert :
      (k j : String) (a : A) (d : Dict A)
      → has j (insert k a d) ≡ (if k == j then true else has j d)
  has-insert k j a d = ground (arith, lookup-insert k j a d)

  -- The identifiers of `d` are new to `result`, and differ.
  abbrev IsNew : Dict A → Dict A → Type 0
  IsNew result [] = Unit
  IsNew result ((k, a) ∷ d) = (has k result ≡ false) × IsNew (result ++ (k, a) ∷ []) d

  indexed_from_sound :
      (result : Dict A) (items : List A) (d : Dict A)
      → indexed_from result items ≡ ok d
      → (e : Dict A) × (d ≡ result ++ e) × (members e ≡ items) × IsKeyed e × IsNew result e
  unfolding indexed_from
  indexed_from_sound result [] d h = ([], cc (h, append-nil result), refl, tt, tt)
  indexed_from_sound result (a ∷ items) d h =
      let (k, named, h₁) = >>=-eq-ok (read_id a) _ h in
      elim (Bool-cases (has k result)) [
        | inl old ↦ absurd (cc (rw old at h₁))
        | inr new ↦
            let grown : insert k a result ≡ result ++ (k, a) ∷ [] = insert_new k a result new in
            let (e, whole, same, keyed, fresh) =
              indexed_from_sound (result ++ (k, a) ∷ []) items d (rw (new, grown) at h₁) in
            (
              (k, a) ∷ e,
              whole ∙ append_assoc result ((k, a) ∷ []) e,
              ap (λ l. a ∷ l) same,
              (named, keyed),
              (new, fresh),
            )
      ]

  indexed_from_complete :
      (result e : Dict A)
      → IsKeyed e
      → IsNew result e
      → indexed_from result (members e) ≡ ok (result ++ e)
  unfolding indexed_from
  indexed_from_complete result [] keyed fresh = ap ok (sym (append-nil result))
  indexed_from_complete result ((k, a) ∷ e) (named, keyed) (new, fresh) = rw named (
      rw (new, insert_new k a result new)
        (indexed_from_complete (result ++ (k, a) ∷ []) e keyed fresh
          ∙ ap ok (append_assoc result ((k, a) ∷ []) e)))

  has-append_one :
      (j k : String) (a : A) (d : Dict A)
      → has j (d ++ (k, a) ∷ []) ≡ (if k == j then true else has j d)
  has-append_one j k a [] = ground arith
  has-append_one j k a ((i, b) ∷ d) = ground (arith, has-append_one j k a d, eq_iff i j, eq_iff k j)

  new-has :
      (result d : Dict A) (j : String)
      → IsNew result d
      → contains j (keys d) ≡ true
      → has j result ≡ false
  new-has result [] j fresh c = cc
  new-has result ((k, a) ∷ d) j (new, fresh) c =
      ground
        (arith, eq_iff k j, new-has (result ++ (k, a) ∷ []) d j fresh, has-append_one j k a result)

  new_unique : (result d : Dict A) → IsNew result d → is_unique (keys d) ≡ true
  new_unique result [] fresh = refl
  new_unique result ((k, a) ∷ d) (new, fresh) = ground (
    arith,
    eq_refl k,
    new_unique (result ++ (k, a) ∷ []) d fresh,
    new-has (result ++ (k, a) ∷ []) d k fresh,
    has-append_one k k a result,
  )

  unique-IsNew :
      (result d : Dict A)
      → is_unique (keys d) ≡ true
      → ((j : String) → contains j (keys d) ≡ true → has j result ≡ false)
      → IsNew result d
  unique-IsNew result [] u h = tt
  unique-IsNew result ((k, a) ∷ d) u h =
      let (once, others) = and_true (not (contains k (keys d))) (is_unique (keys d)) u in
      (
        h k (rw eq_refl),
        unique-IsNew (result ++ (k, a) ∷ []) d others
            λ j c. ground (arith, has-append_one j k a result, eq_iff k j, h j),
      )

  -- `indexed` returns exactly the dictionary that holds the items in their order, each under its own
  -- nonempty identifier, and it returns one exactly when all the identifiers can be read and differ.
  pub indexed_iff :
      (items : List A) (d : Dict A)
      → (indexed items ≡ ok d) ↔ ((members d ≡ items) × IsKeyed d × (is_unique (keys d) ≡ true))
  unfolding indexed
  indexed_iff items d = (
    λ h.
        let (e, whole, same, keyed, fresh) = indexed_from_sound [] items d h in
        rw whole (same, keyed, new_unique [] e fresh),
    λ (same, keyed, unique).
        rw (← same) (indexed_from_complete [] d keyed (unique-IsNew [] d unique (λ j c. refl))),
  )

  -- What holds of every item holds of what a lookup finds.
  pub members-lookup {ℓ} :
      (P : A → Type ℓ) (d : Dict A) (k : String) (a : A)
      → All P (members d)
      → lookup k d ≡ some a
      → P a
  members-lookup P [] k a h e = cc
  members-lookup P ((j, b) ∷ d) k a (here, rest) e = elim (Bool-cases (j == k)) [
    | inl found ↦ let same : b ≡ a = ground arith in subst P same here
    | inr other ↦ members-lookup P d k a rest (rw other at e)
  ]
