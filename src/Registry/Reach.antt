-- ===== src/Registry/Reach.antt =====
-- What happens to a registry: an image is published, a signature is put, a request is
-- answered.
use flatpak_blackbox_tests.Base.{String, Bool, true, ◌&&◌, ◌==◌, all, ◌≡◌}
use flatpak_blackbox_tests.Base.Dict.{Dict, has}
use flatpak_blackbox_tests.Json.Value.{Value}
use flatpak_blackbox_tests.Registry.Layout.{Image}
use flatpak_blackbox_tests.Registry.{Registry, publish, sign, response}
use Prim.Native.String.{◌++◌ as ◌<>◌}

-- each blob stands under its digest
unfoldable pub is_addressed : (String → String) → Dict String → Bool
is_addressed sha256 blobs = all (λ e. e.0 == "sha256:" <> sha256 e.1) blobs

-- an image as `Image.load` makes it
unfoldable pub is_valid : (String → String) → Image → Bool
unfolding is_addressed
is_valid sha256 image =
    is_addressed sha256 image.blobs
    && (has image.digest image.blobs && has "MediaType" image.described)

unfoldable pub is_sound : (String → String) → Registry → Bool
unfolding is_valid
is_sound sha256 r =
    all (λ e. is_valid sha256 e.1) r.images && all (λ e. is_addressed sha256 e.1) r.blobs

pub data Step (sha256 : String → String) (show : Value → String) (dumps : Value → String)
    (path_of : String → String) : Registry → Registry → Type 0 where
  published :
      {r : Registry} (name : String) (image : Image)
      → is_valid sha256 image ≡ true
      → Step sha256 show dumps path_of r (publish name image r)
  signed :
      {r : Registry} (place signature : String)
      → Step sha256 show dumps path_of r (sign place signature r)
  answered :
      {r : Registry} (url : String)
      → Step sha256 show dumps path_of r (response show dumps path_of url r).1

pub data Reach (sha256 : String → String) (show : Value → String) (dumps : Value → String)
    (path_of : String → String) (r : Registry) : Registry → Type 0 where
  here : Reach sha256 show dumps path_of r r
  next :
      {s t : Registry}
      → Reach sha256 show dumps path_of r s
      → Step sha256 show dumps path_of s t
      → Reach sha256 show dumps path_of r t
