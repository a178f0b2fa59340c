-- ===== src/Examples/Registry.antt =====
-- A registry of one image that is published again, and signed.
use Prim.Native.String.{◌++◌ as ◌<>◌}
use flatpak_blackbox_tests.Base.{String, true, List, [], ◌∷◌, ◌==◌, if◌then◌else◌, ◌≡◌, refl}
use flatpak_blackbox_tests.Base.Dict.{Dict}
use flatpak_blackbox_tests.Json.Value.{Value, text, list, dict, Result, ok, items, entries}
use flatpak_blackbox_tests.Json.Validate.{object_map, array, string, string_map}
use flatpak_blackbox_tests.Registry.Layout.{Image, load}
use flatpak_blackbox_tests.Registry.{Registry, publish, sign, new, answer, answer_of, parts_of}
use flatpak_blackbox_tests.Registry.Reach.{
  is_valid, is_addressed, published, signed, Reach, here, next,
}
use flatpak_blackbox_tests.Registry.Serves.{blob-Reach, manifest-Reach}
use flatpak_blackbox_tests.Registry.Loads.{load-is_valid}

abbrev sha256 : String → String
sha256 s = s

abbrev show : Value → String
show v = "value"

abbrev path_of : String → String
path_of s = s

abbrev index : Value
index = dict (
    entries
      (("manifests", list (items (dict (entries (("digest", text "sha256:m") ∷ [])) ∷ []))) ∷ []))

abbrev manifest : Value
manifest = dict (entries (("config", dict (entries (("digest", text "sha256:c") ∷ []))) ∷ []))

abbrev configuration : Value
configuration = dict (entries (("os", text "linux") ∷ ("architecture", text "amd64") ∷ []))

abbrev loads : String → Result Value
loads s = if s == "m" then ok manifest else ok configuration

abbrev files : List (String × String)
files = ("m", "m") ∷ ("c", "c") ∷ []

abbrev image : Image
image = record {
  digest = "sha256:m";
  blobs = ("sha256:m", "m") ∷ ("sha256:c", "c") ∷ [];
  described =
      ("Tags", list (items (text "latest" ∷ [])))
      ∷ ("Digest", text "sha256:m")
      ∷ ("MediaType", text "application/vnd.oci.image.manifest.v1+json")
      ∷ ("OS", text "linux")
      ∷ ("Architecture", text "amd64")
      ∷ ("Annotations", dict (entries []))
      ∷ ("Labels", dict (entries []))
      ∷ [];
}

loaded : load sha256 loads index files ≡ ok image
unfolding load object_map array string string_map
loaded = refl

load-is_valid_example : is_valid sha256 image ≡ true
load-is_valid_example = load-is_valid sha256 loads index files image loaded

abbrev images : Dict Image
images = ("app", image) ∷ []

abbrev second : Image
second = record image { digest = "sha256:n"; blobs = ("sha256:n", "n") ∷ [] }

abbrev again : Registry
again = sign "/signatures/app" "signature" (publish "app" second (new images))

published_again : Reach sha256 show show path_of (new images) again
unfolding is_valid is_addressed
published_again =
    next (next here (published "app" second refl)) (signed "/signatures/app" "signature")

blob-Reach_example :
    (later : String) × (answer show show path_of again "/v2/app/blobs/sha256:m"
      ≡ answer_of 200 later "application/octet-stream")
    × ("sha256:m" ≡ "sha256:" <> sha256 later)
unfolding is_valid answer parts_of publish sign new
blob-Reach_example =
    blob-Reach sha256 show show path_of images (new images) again "/v2/app/blobs/sha256:m" "app"
      "sha256:m" "m" refl here published_again refl refl refl

manifest-Reach_example :
    (body media_type : String) × (answer show show path_of again "/v2/app/manifests/latest"
      ≡ answer_of 200 body media_type)
    × (second.digest ≡ "sha256:" <> sha256 body)
unfolding is_valid parts_of publish sign new
manifest-Reach_example =
    manifest-Reach sha256 show show path_of images again "/v2/app/manifests/latest" "app" second
      refl published_again refl refl refl
