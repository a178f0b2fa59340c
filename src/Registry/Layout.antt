-- ===== src/Registry/Layout.antt =====
-- oci_registry.py: `Image`, which is loaded from a layout. A byte string is a text; `sha256` and `json.loads` are parameters.
use Prim.Native.String.{◌++◌ as ◌<>◌}
use flatpak_blackbox_tests.Base.{String, false, none, some, List, [], ◌∷◌, ◌==◌, map}
use flatpak_blackbox_tests.Base.Dict.{Dict, lookup, insert}
use flatpak_blackbox_tests.Json.Value.{
  Value, text, list, dict, root, value_error, key_error, Result, ok, err, ◌>>=◌, ◌>>◌, guard, items,
  entries,
}
use flatpak_blackbox_tests.Json.Validate.{object_map, array, string, string_map}

pub record Image : Type 0 where
  pub digest : String
  pub blobs : Dict String
  pub described : Dict Value

-- `d[key]`
abbrev pub entry_at {ℓ} : {A : Type ℓ} → String → Dict A → Result A
entry_at key d = elim (lookup key d) [ none ↦ err (key_error key) | some v ↦ ok v ]

-- `d.get(key, {})`
abbrev pub get_object : String → Dict Value → Value
get_object key d = elim (lookup key d) [ none ↦ dict (entries []) | some v ↦ v ]

-- the one item of a list
abbrev pub single : List Value → Result Value
single (v ∷ []) = ok v
single _ = err (value_error "registry fixture requires one image per layout")

abbrev pub texts : Dict String → Value
texts d = dict (entries (map (λ e. (e.0, text e.1)) d))

pub record Facts : Type 0 where
  pub os : String
  pub architecture : String
  pub annotations : Dict String
  pub labels : Dict String

abbrev pub described_by : String → Facts → Dict Value
described_by digest facts =
    ("Tags", list (items (text "latest" ∷ [])))
    ∷ ("Digest", text digest)
    ∷ ("MediaType", text "application/vnd.oci.image.manifest.v1+json")
    ∷ ("OS", text facts.os)
    ∷ ("Architecture", text facts.architecture)
    ∷ ("Annotations", texts facts.annotations)
    ∷ ("Labels", texts facts.labels)
    ∷ []

-- the digest of the one image of an index
unfoldable pub index_digest : Value → Result String
index_digest index_value = do
  index ← object_map index_value (root "OCI index")
  manifests_value ← entry_at "manifests" index
  manifests ← array manifests_value (root "OCI manifests")
  first ← single manifests
  descriptor ← object_map first (root "OCI manifest descriptor")
  digest_value ← entry_at "digest" descriptor
  string digest_value (root "OCI manifest digest") false

module _ (loads : String → Result Value) where
  -- what the record says of the image, out of its manifest and its configuration
  unfoldable pub image_facts : Dict String → String → Result Facts
  image_facts blobs manifest_text = do
    manifest_value ← loads manifest_text
    manifest ← object_map manifest_value (root "OCI manifest")
    config_value ← entry_at "config" manifest
    config_descriptor ← object_map config_value (root "OCI config descriptor")
    config_digest_value ← entry_at "digest" config_descriptor
    config_digest ← string config_digest_value (root "OCI config digest") false
    config_text ← entry_at config_digest blobs
    config_json ← loads config_text
    config ← object_map config_json (root "OCI config")
    configuration ← object_map (get_object "config" config) (root "OCI configuration")
    os_value ← entry_at "os" config
    os ← string os_value (root "OCI OS") false
    architecture_value ← entry_at "architecture" config
    architecture ← string architecture_value (root "OCI architecture") false
    annotations ← string_map (get_object "annotations" manifest) (root "OCI annotations") false
    labels ← string_map (get_object "Labels" configuration) (root "OCI labels") false
    ok (record { os = os; architecture = architecture; annotations = annotations; labels = labels })

module _ (sha256 : String → String) where
  -- the files of `blobs/sha256`, by name, each under its digest
  unfoldable pub load_blobs : Dict String → List (String × String) → Result (Dict String)
  load_blobs blobs [] = ok blobs
  load_blobs blobs ((name, data') ∷ files) =
      guard (sha256 data' == name) (value_error "OCI fixture checksum mismatch")
      >> load_blobs (insert ("sha256:" <> name) data' blobs) files

  module _ (loads : String → Result Value) where
    -- `Image.load`, of the value of `index.json` and the files
    unfoldable pub load : Value → List (String × String) → Result Image
    unfolding load_blobs image_facts index_digest
    load index_value files = do
      digest ← index_digest index_value
      blobs ← load_blobs [] files
      manifest_text ← entry_at digest blobs
      facts ← image_facts loads blobs manifest_text
      ok (record { digest = digest; blobs = blobs; described = described_by digest facts })
