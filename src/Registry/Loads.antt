-- ===== src/Registry/Loads.antt =====
-- An image that was loaded is one that a registry may publish.
use Prim.Native.String.{◌++◌ as ◌<>◌}
use flatpak_blackbox_tests.Base.{
  String, true, List, [], ◌∷◌, ◌==◌, ◌≡◌, refl, eq_iff, eq_refl, inl, inr, subst, Option-cases,
}
use flatpak_blackbox_tests.Base.Dict.{Dict, lookup, has, insert}
use flatpak_blackbox_tests.Json.Value.{Value, Result, ok, >>=-eq-ok, guard-then, ok_injective}
use flatpak_blackbox_tests.Registry.Layout.{
  Image, load_blobs, load, entry_at, image_facts, index_digest,
}
use flatpak_blackbox_tests.Registry.Reach.{is_addressed, is_valid}
use flatpak_blackbox_tests.Base.Entries.{and_both, all-insert}

entry_at-has :
    {A : Type 0} (key : String) (d : Dict A) (v : A) → entry_at key d ≡ ok v → has key d ≡ true
entry_at-has key d v h = elim (Option-cases (lookup key d)) [
  | inl e ↦ absurd (cc (rw (entry_at, e) at h))
  | inr (w, e) ↦ rw e refl
]

module _ (sha256 : String → String) where
  load_blobs-is_addressed :
      (blobs : Dict String) (files : List (String × String)) (found : Dict String)
      → is_addressed sha256 blobs ≡ true
      → load_blobs sha256 blobs files ≡ ok found
      → is_addressed sha256 found ≡ true
  unfolding load_blobs is_addressed
  load_blobs-is_addressed blobs [] found h e =
      subst (λ b. is_addressed sha256 b ≡ true) (ok_injective e) h
  load_blobs-is_addressed blobs ((name, data') ∷ files) found h e =
      let (same, rest) = guard-then (sha256 data' == name) _ _ e in
      load_blobs-is_addressed (insert ("sha256:" <> name) data' blobs) files found
        (all-insert (λ e. e.0 == "sha256:" <> sha256 e.1) ("sha256:" <> name) data' blobs
          (rw ((eq_iff (sha256 data') name).0 same) (eq_refl ("sha256:" <> name))) h)
        rest

  -- An image that is loaded has each of its blobs under the blob's checksum, the blob of its own digest, and a media type.
  pub load-is_valid :
      (loads : String → Result Value) (index : Value) (files : List (String × String))
      (image : Image)
      → load sha256 loads index files ≡ ok image
      → is_valid sha256 image ≡ true
  unfolding load is_valid is_addressed
  load-is_valid loads index files image h =
      let (digest, _, h1) = >>=-eq-ok (index_digest index) _ h in
      let (blobs, read, h2) = >>=-eq-ok (load_blobs sha256 [] files) _ h1 in
      let (manifest_text, there, h3) = >>=-eq-ok (entry_at digest blobs) _ h2 in
      let (facts, _, built) = >>=-eq-ok (image_facts loads blobs manifest_text) _ h3 in
      subst (λ image. is_valid sha256 image ≡ true) (ok_injective built)
        (and_both (is_addressed sha256 blobs) _ (load_blobs-is_addressed [] files blobs refl read)
          (and_both (has digest blobs) _ (entry_at-has digest blobs manifest_text there) refl))
