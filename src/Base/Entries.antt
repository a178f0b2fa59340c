-- ===== src/Base/Entries.antt =====
-- Tests that hold of all entries of a dictionary.
use Prim.Native.String.{String, compare}
use mathlib.Core.Path.{◌≡◌, refl, subst, sym, ap, ◌∙◌}
use mathlib.Core.Logic.{inl, inr}
use mathlib.Core.Bool.{Bool, true, ◌&&◌, ◌||◌}
use mathlib.Core.Option.{some}
use mathlib.Core.List.{[], ◌∷◌}
use text.Mathlib.Text.{◌==◌, is_le}
use text.Mathlib.TextEquality.{eq_iff}
use flatpak_blackbox_tests.Base.Tests.{and_true, Bool-cases}
use flatpak_blackbox_tests.Base.Lists.{all, any}
use flatpak_blackbox_tests.Base.Sets.{or_assoc, or_swap}
use flatpak_blackbox_tests.Base.Dict.{Dict, insert, lookup}
use flatpak_blackbox_tests.Base.Order.{insert_item, sorted_items}

pub and_left : (a b : Bool) → (a && b) ≡ true → a ≡ true
and_left a b h = (and_true a b h).0

pub and_right : (a b : Bool) → (a && b) ≡ true → b ≡ true
and_right a b h = (and_true a b h).1

pub and_both : (a b : Bool) → a ≡ true → b ≡ true → (a && b) ≡ true
and_both a b h k = rw (h, k) refl

module _ {ℓ} {V : Type ℓ} where
  pub all-insert :
      (p : String × V → Bool) (k : String) (v : V) (d : Dict V)
      → p (k, v) ≡ true
      → all p d ≡ true
      → all p (insert k v d) ≡ true
  all-insert p k v [] h e = rw h refl
  all-insert p k v ((j, w) ∷ d) h e = elim (Bool-cases (j == k)) [
    | inl same ↦ rw same (
        and_both (p (j, v)) (all p d) (rw ((eq_iff j k).0 same) h)
          (and_right (p (j, w)) (all p d) e))
    | inr other ↦ rw other (
        and_both (p (j, w)) (all p (insert k v d)) (and_left (p (j, w)) (all p d) e)
          (all-insert p k v d h (and_right (p (j, w)) (all p d) e)))
  ]

  pub all-lookup :
      (p : String × V → Bool) (k : String) (v : V) (d : Dict V)
      → all p d ≡ true
      → lookup k d ≡ some v
      → p (k, v) ≡ true
  all-lookup p k v [] h e = absurd (cc e)
  all-lookup p k v ((j, w) ∷ d) h e = elim (Bool-cases (j == k)) [
    | inl same ↦
        let found : w ≡ v = cc (rw same at e) in
        subst (λ v. p (k, v) ≡ true) found
          (subst (λ k. p (k, w) ≡ true) ((eq_iff j k).0 same) (and_left (p (j, w)) (all p d) h))
    | inr other ↦ all-lookup p k v d (and_right (p (j, w)) (all p d) h) (rw other at e)
  ]

  all-insert_item :
      (p : String × V → Bool) (k : String) (v : V) (d : Dict V)
      → p (k, v) ≡ true
      → all p d ≡ true
      → all p (insert_item k v d) ≡ true
  unfolding insert_item
  all-insert_item p k v [] h e = rw h refl
  all-insert_item p k v ((j, w) ∷ d) h e = elim (Bool-cases (is_le (compare k j))) [
    | inl before ↦ rw before (and_both (p (k, v)) (all p ((j, w) ∷ d)) h e)
    | inr behind ↦ rw behind (
        and_both (p (j, w)) (all p (insert_item k v d)) (and_left (p (j, w)) (all p d) e)
          (all-insert_item p k v d h (and_right (p (j, w)) (all p d) e)))
  ]

  pub all-sorted_items :
      (p : String × V → Bool) (d : Dict V) → all p d ≡ true → all p (sorted_items d) ≡ true
  unfolding sorted_items
  all-sorted_items p [] h = h
  all-sorted_items p ((k, v) ∷ d) h =
      all-insert_item p k v (sorted_items d) (and_left (p (k, v)) (all p d) h)
        (all-sorted_items p d (and_right (p (k, v)) (all p d) h))

  any-insert_item :
      (p : String × V → Bool) (k : String) (v : V) (d : Dict V)
      → any p (insert_item k v d) ≡ (p (k, v) || any p d)
  unfolding insert_item
  any-insert_item p k v [] = refl
  any-insert_item p k v ((j, w) ∷ d) = elim (Bool-cases (is_le (compare k j))) [
    | inl before ↦ rw before refl
    | inr behind ↦
        rw (behind, any-insert_item p k v d)
          (sym (or_assoc (p (j, w)) (p (k, v)) (any p d)) ∙ or_swap (p (j, w)) (p (k, v)) (any p d))
  ]

  pub any-sorted_items : (p : String × V → Bool) (d : Dict V) → any p (sorted_items d) ≡ any p d
  unfolding sorted_items
  any-sorted_items p [] = refl
  any-sorted_items p ((k, v) ∷ d) =
      any-insert_item p k v (sorted_items d) ∙ ap (λ b. p (k, v) || b) (any-sorted_items p d)
