-- ===== src/Registry/Serves.antt =====
-- What a registry that was reached answers of blobs and manifests.
use Prim.Native.String.{◌++◌ as ◌<>◌}
use flatpak_blackbox_tests.Base.{
  String, true, false, ◌||◌, some, List, [], ◌∷◌, ◌==◌, all, none, ◌≡◌, refl, ap, ◌∙◌, inl, inr,
  eq_iff, Bool-cases, Option-cases, sym,
}
use flatpak_blackbox_tests.Base.Dict.{Dict, lookup, has, lookup-insert}
use flatpak_blackbox_tests.Json.Value.{Value, Result, ok_injective}
use flatpak_blackbox_tests.Registry.Layout.{Image, entry_at}
use flatpak_blackbox_tests.Registry.{
  Answer, Registry, update_all, blobs_of, publish, sign, response, new, parts_of, answer, answer_of,
  fallback, image_parts, manifest_answer, blob_answer, image_answer, manifest_of, str,
}
use flatpak_blackbox_tests.Registry.Reach.{
  is_addressed, is_valid, is_sound, published, signed, answered, Reach, here, next,
}
use flatpak_blackbox_tests.Registry.Laws.{
  has-update, has-insert, new-is_sound, Reach-is_sound, blobs_of-is_addressed,
}
use flatpak_blackbox_tests.Base.Entries.{and_left, and_right, all-lookup}

entry_of_has :
    {V : Type 0} (k : String) (d : Dict V) → has k d ≡ true → (v : V) × (lookup k d ≡ some v)
entry_of_has k d h = elim (Option-cases (lookup k d)) [
  | inl e ↦ absurd (cc (rw e at h))
  | inr (v, e) ↦ (v, e)
]

abbrev head : List String → String
head [] = ""
head (x ∷ xs) = x

not_index :
    (path : String) (rest : List String)
    → parts_of path ≡ "v2" ∷ rest
    → (path == "/index/static" || path == "/index/dynamic") ≡ false
unfolding parts_of
not_index path rest e = elim (Bool-cases (path == "/index/static")) [
  | inl same ↦
      absurd (cc (ap (λ p. head p == "v2") (rw ((eq_iff path "/index/static").0 same) at e)))
  | inr other ↦ elim (Bool-cases (path == "/index/dynamic")) [
    | inl same ↦
        absurd (cc (ap (λ p. head p == "v2") (rw ((eq_iff path "/index/dynamic").0 same) at e)))
    | inr another ↦ rw (other, another) refl
  ]
]

module _ (sha256 : String → String) (show dumps : Value → String) (path_of : String → String) where
  Reach-signatures :
      (path : String) {r s : Registry}
      → Reach sha256 show dumps path_of r s
      → has path r.signatures ≡ true
      → has path s.signatures ≡ true
  unfolding publish sign response
  Reach-signatures path here h = h
  Reach-signatures path (next reached (published name image valid)) h =
      Reach-signatures path reached h
  Reach-signatures path (next reached (signed {r} place signature)) h =
      has-insert path place signature r.signatures (Reach-signatures path reached h)
  Reach-signatures path (next reached (answered url)) h = Reach-signatures path reached h

  -- A path without a signature had none before.
  unsigned_before :
      (path : String) {r s : Registry}
      → Reach sha256 show dumps path_of r s
      → lookup path s.signatures ≡ none
      → lookup path r.signatures ≡ none
  unsigned_before path {r} reached h = elim (Option-cases (lookup path r.signatures)) [
    | inl e ↦ e
    | inr (v, e) ↦ absurd (cc (rw h at (Reach-signatures path reached (rw e refl))))
  ]

  publish-has :
      (n name digest : String) (image : Image) (r : Registry)
      → has digest (blobs_of name r.blobs) ≡ true
      → has digest (blobs_of name (publish n image r).blobs) ≡ true
  unfolding publish
  publish-has n name digest image r h = elim (Bool-cases (n == name)) [
    | inl same ↦
        rw
          (
            blobs_of,
            lookup-insert n name (update_all (blobs_of n r.blobs) image.blobs) r.blobs,
            same,
          )
          (has-update digest (blobs_of n r.blobs) image.blobs (rw ((eq_iff n name).0 same) h))
    | inr other ↦
        rw
          (
            blobs_of,
            lookup-insert n name (update_all (blobs_of n r.blobs) image.blobs) r.blobs,
            other,
          )
          h
  ]

  Reach-has :
      (name digest : String) {r s : Registry}
      → Reach sha256 show dumps path_of r s
      → has digest (blobs_of name r.blobs) ≡ true
      → has digest (blobs_of name s.blobs) ≡ true
  unfolding sign response
  Reach-has name digest here h = h
  Reach-has name digest (next reached (published {r} n image valid)) h =
      publish-has n name digest image r (Reach-has name digest reached h)
  Reach-has name digest (next reached (signed place signature)) h = Reach-has name digest reached h
  Reach-has name digest (next reached (answered url)) h = Reach-has name digest reached h

  image_path :
      (r : Registry) (path name kind digest : String)
      → lookup path r.signatures ≡ none
      → parts_of path ≡ "v2" ∷ name ∷ kind ∷ digest ∷ []
      → answer show dumps path_of r path
        ≡ manifest_answer show r name kind digest (blob_answer r name kind digest (fallback path))
  unfolding answer image_parts
  image_path r path name kind digest unsigned parts =
      rw (answer, unsigned, not_index path _ parts, parts) refl

  octets : String → Result Answer
  octets body = answer_of 200 body "application/octet-stream"

  no_octets : (path body : String) → fallback path ≡ octets body → ⊥
  unfolding octets
  no_octets path body e = elim (Bool-cases (path == "/v2" || path == "/v2/")) [
    | inl same ↦
        cc (ap (λ a. a.media_type == "application/octet-stream") (ok_injective (rw same at e)))
    | inr other ↦
        cc (ap (λ a. a.media_type == "application/octet-stream") (ok_injective (rw other at e)))
  ]

  served_has :
      (r : Registry) (path name digest body : String)
      → lookup path r.signatures ≡ none
      → parts_of path ≡ "v2" ∷ name ∷ "blobs" ∷ digest ∷ []
      → answer show dumps path_of r path ≡ octets body
      → has digest (blobs_of name r.blobs) ≡ true
  unfolding manifest_answer blob_answer octets
  served_has r path name digest body unsigned parts served =
      let answered_by : blob_answer r name "blobs" digest (fallback path) ≡ octets body =
        sym (image_path r path name "blobs" digest unsigned parts) ∙ served in
      elim (Option-cases (lookup digest (blobs_of name r.blobs))) [
        | inl e ↦ absurd (no_octets path body (rw e at answered_by))
        | inr (v, e) ↦ rw e refl
      ]

  found_blob :
      (r : Registry) (path name digest body : String)
      → lookup path r.signatures ≡ none
      → parts_of path ≡ "v2" ∷ name ∷ "blobs" ∷ digest ∷ []
      → lookup digest (blobs_of name r.blobs) ≡ some body
      → answer show dumps path_of r path ≡ octets body
  unfolding manifest_answer blob_answer octets
  found_blob r path name digest body unsigned parts found =
      image_path r path name "blobs" digest unsigned parts ∙ (rw found refl)

  -- Of a registry that was made of valid images, once a request for a blob is answered with it, it is answered with a
  -- blob of that digest after all further publications, signatures and requests, as long as no signature stands at its
  -- path.
  pub blob-Reach :
      (images : Dict Image) (r s : Registry) (path name digest body : String)
      → all (λ e. is_valid sha256 e.1) images ≡ true
      → Reach sha256 show dumps path_of (new images) r
      → Reach sha256 show dumps path_of r s
      → parts_of path ≡ "v2" ∷ name ∷ "blobs" ∷ digest ∷ []
      → lookup path s.signatures ≡ none
      → answer show dumps path_of r path ≡ answer_of 200 body "application/octet-stream"
      → (later : String) × (answer show dumps path_of s path
          ≡ answer_of 200 later "application/octet-stream")
        × (digest ≡ "sha256:" <> sha256 later)
  unfolding octets is_sound is_addressed
  blob-Reach images r s path name digest body valid before after parts now_signed served =
      let unsigned = unsigned_before path after now_signed in
      let sound =
        Reach-is_sound sha256 show dumps path_of after
          (Reach-is_sound sha256 show dumps path_of before (new-is_sound sha256 images valid)) in
      let (later, found) =
        entry_of_has digest (blobs_of name s.blobs) (
          Reach-has name digest after (served_has r path name digest body unsigned parts served)) in
      (
        later,
        found_blob s path name digest later now_signed parts found,
        (eq_iff digest ("sha256:" <> sha256 later)).0 (
            all-lookup (λ e. e.0 == "sha256:" <> sha256 e.1) digest later (blobs_of name s.blobs)
              (blobs_of-is_addressed sha256 name s.blobs
                (and_right (all (λ e. is_valid sha256 e.1) s.images) _ sound))
              found),
      )

  found_manifest :
      (r : Registry) (path name body : String) (image : Image) (media : Value)
      → lookup path r.signatures ≡ none
      → parts_of path ≡ "v2" ∷ name ∷ "manifests" ∷ "latest" ∷ []
      → lookup name r.images ≡ some image
      → lookup image.digest image.blobs ≡ some body
      → lookup "MediaType" image.described ≡ some media
      → answer show dumps path_of r path ≡ answer_of 200 body (str show media)
  unfolding manifest_answer
  found_manifest r path name body image media unsigned parts there found typed =
      image_path r path name "manifests" "latest" unsigned parts
      ∙ (rw (there, image_answer) (rw (manifest_of, entry_at, found, typed) refl))

  -- Of each registry that was reached from valid images, a request for the latest manifest of an image that is there, at
  -- a path without a signature, is answered, without an exception, with the blob of the image's digest.
  pub manifest-Reach :
      (images : Dict Image) (s : Registry) (path name : String) (image : Image)
      → all (λ e. is_valid sha256 e.1) images ≡ true
      → Reach sha256 show dumps path_of (new images) s
      → parts_of path ≡ "v2" ∷ name ∷ "manifests" ∷ "latest" ∷ []
      → lookup path s.signatures ≡ none
      → lookup name s.images ≡ some image
      → (body media_type : String) × (answer show dumps path_of s path
          ≡ answer_of 200 body media_type)
        × (image.digest ≡ "sha256:" <> sha256 body)
  unfolding is_sound is_valid is_addressed
  manifest-Reach images s path name image valid reached parts unsigned there =
      let sound =
        Reach-is_sound sha256 show dumps path_of reached (new-is_sound sha256 images valid) in
      let good =
        all-lookup (λ e. is_valid sha256 e.1) name image s.images (and_left _ _ sound) there in
      let named = and_right (is_addressed sha256 image.blobs) _ good in
      let (body, found) = entry_of_has image.digest image.blobs (and_left _ _ named) in
      let (media, typed) =
        entry_of_has "MediaType" image.described
          (and_right (has image.digest image.blobs) _ named) in
      (
        body,
        str show media,
        found_manifest s path name body image media unsigned parts there found typed,
        (eq_iff image.digest ("sha256:" <> sha256 body)).0 (
            all-lookup (λ e. e.0 == "sha256:" <> sha256 e.1) image.digest body image.blobs
              (and_left (is_addressed sha256 image.blobs) _ good) found),
      )
