-- ===== src/Base/Order.antt =====
-- Python's `sorted` on the items of a dictionary, whose keys differ.
use Prim.Native.String.{String, compare}
use mathlib.Core.List.{[], ◌∷◌}
use text.Mathlib.Text.{is_le}
use flatpak_blackbox_tests.Base.Tests.{if◌then◌else◌}
use flatpak_blackbox_tests.Base.Dict.{Dict}

module _ {ℓ} {V : Type ℓ} where
  unfoldable pub insert_item : String → V → Dict V → Dict V
  insert_item k v [] = (k, v) ∷ []
  insert_item k v ((j, w) ∷ d) =
      let rest = insert_item k v d in
      if is_le (compare k j) then (k, v) ∷ (j, w) ∷ d else (j, w) ∷ rest

  unfoldable pub sorted_items : Dict V → Dict V
  unfolding insert_item
  sorted_items [] = []
  sorted_items ((k, v) ∷ d) = insert_item k v (sorted_items d)
