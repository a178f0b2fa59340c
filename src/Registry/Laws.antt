-- ===== src/Registry/Laws.antt =====
-- The registry's invariant: images as they were loaded, and blobs under their digests.
use Prim.Native.String.{◌++◌ as ◌<>◌}
use flatpak_blackbox_tests.Base.{
  String, Bool, true, [], ◌∷◌, ◌==◌, all, map, ◌≡◌, refl, inl, inr, Bool-cases, Option-cases,
}
use flatpak_blackbox_tests.Base.Entries.{and_left, and_right, and_both, all-insert, all-lookup}
use flatpak_blackbox_tests.Base.Dict.{Dict, lookup, has, insert, lookup-insert}
use flatpak_blackbox_tests.Json.Value.{Value}
use flatpak_blackbox_tests.Registry.Layout.{Image}
use flatpak_blackbox_tests.Registry.{Registry, update_all, blobs_of, publish, sign, response, new}
use flatpak_blackbox_tests.Registry.Reach.{
  is_addressed, is_valid, is_sound, published, signed, answered, Reach, here, next,
}

module _ {ℓ} {V : Type ℓ} where
  pub all-update :
      (p : String × V → Bool) (d e : Dict V)
      → all p d ≡ true
      → all p e ≡ true
      → all p (update_all d e) ≡ true
  all-update p d [] h k = h
  all-update p d ((j, v) ∷ e) h k =
      all-update p (insert j v d) e (all-insert p j v d (and_left (p (j, v)) (all p e) k) h)
        (and_right (p (j, v)) (all p e) k)

  pub has-insert :
      (k j : String) (v : V) (d : Dict V) → has k d ≡ true → has k (insert j v d) ≡ true
  has-insert k j v d h =
      rw (lookup-insert j k v d)
        (elim (Bool-cases (j == k)) [ inl same ↦ rw same refl | inr other ↦ rw other h ])

  -- An update forgets no key.
  pub has-update : (k : String) (d e : Dict V) → has k d ≡ true → has k (update_all d e) ≡ true
  has-update k d [] h = h
  has-update k d ((j, v) ∷ e) h = has-update k (insert j v d) e (has-insert k j v d h)

module _ (sha256 : String → String) where
  pub blobs_of-is_addressed :
      (name : String) (blobs : Dict (Dict String))
      → all (λ e. is_addressed sha256 e.1) blobs ≡ true
      → is_addressed sha256 (blobs_of name blobs) ≡ true
  unfolding is_addressed
  blobs_of-is_addressed name blobs h = elim (Option-cases (lookup name blobs)) [
    | inl e ↦ rw (e, blobs_of) refl
    | inr (d, e) ↦ rw (e, blobs_of) (all-lookup (λ e. is_addressed sha256 e.1) name d blobs h e)
  ]

  pub publish-is_sound :
      (name : String) (image : Image) (r : Registry)
      → is_valid sha256 image ≡ true
      → is_sound sha256 r ≡ true
      → is_sound sha256 (publish name image r) ≡ true
  unfolding publish is_sound is_addressed
  publish-is_sound name image r valid h =
      let images = and_left (all (λ e. is_valid sha256 e.1) r.images) _ h in
      let blobs = and_right (all (λ e. is_valid sha256 e.1) r.images) _ h in
      and_both _ _ (all-insert (λ e. is_valid sha256 e.1) name image r.images valid images) (
        all-insert (λ e. is_addressed sha256 e.1) name _ r.blobs
          (all-update (λ e. e.0 == "sha256:" <> sha256 e.1) (blobs_of name r.blobs) image.blobs
            (blobs_of-is_addressed name r.blobs blobs)
            (and_left (is_addressed sha256 image.blobs) _ valid))
          blobs)

  new_sound :
      (images : Dict Image)
      → all (λ (e : String × Image). is_valid sha256 e.1) images ≡ true
      → all
          (λ (e : String × Dict String). is_addressed sha256 e.1)
          (map (λ (e : String × Image). (e.0, e.1.blobs)) images)
        ≡ true
  unfolding is_valid
  new_sound [] h = refl
  new_sound ((name, image) ∷ images) h =
      and_both _ _
        (and_left (is_addressed sha256 image.blobs) _ (and_left (is_valid sha256 image) _ h))
        (new_sound images (and_right (is_valid sha256 image) _ h))

  pub new-is_sound :
      (images : Dict Image)
      → all (λ (e : String × Image). is_valid sha256 e.1) images ≡ true
      → is_sound sha256 (new images) ≡ true
  unfolding is_sound new
  new-is_sound images h = and_both _ _ h (new_sound images h)

  pub Reach-is_sound :
      (show dumps : Value → String) (path_of : String → String) {r s : Registry}
      → Reach sha256 show dumps path_of r s
      → is_sound sha256 r ≡ true
      → is_sound sha256 s ≡ true
  unfolding response sign is_sound
  Reach-is_sound show dumps path_of here h = h
  Reach-is_sound show dumps path_of (next reached (published {r} name image valid)) h =
      publish-is_sound name image r valid (Reach-is_sound show dumps path_of reached h)
  Reach-is_sound show dumps path_of (next reached (signed place signature)) h =
      Reach-is_sound show dumps path_of reached h
  Reach-is_sound show dumps path_of (next reached (answered url)) h =
      Reach-is_sound show dumps path_of reached h
