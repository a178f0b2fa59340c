-- ===== src/Registry.antt =====
-- oci_registry.py: `Registry`, the server of images that the tests publish. A byte string is a text.
-- Parameters are `json.dumps`, the reading of a URL and `str` of other objects.
pub mod Layout
pub mod Reach
pub mod Laws
pub mod Serves
pub mod Loads
use Prim.Native.String.{◌++◌ as ◌<>◌}
use Prim.Native.Char.{code}
use flatpak_blackbox_tests.Base.{
  ℕ, suc, String, Bool, true, false, ◌&&◌, ◌||◌, Option, none, some, List, [], ◌∷◌, ◌++◌, ◌==◌,
  if◌then◌else◌, map, eqb, is_empty,
}
use flatpak_blackbox_tests.Base.Dict.{Dict, lookup, has, insert}
use flatpak_blackbox_tests.Base.Order.{sorted_items}
use flatpak_blackbox_tests.Base.Words.{split_at}
use flatpak_blackbox_tests.Json.Value.{
  Value, text, list, dict, nil, FieldPath, root, Error, value_error, key_error, Result, ok, err,
  ◌>>=◌, ◌>>◌, guard, items, entries,
}
use flatpak_blackbox_tests.Json.Validate.{object_map, array, string, string_map}
use flatpak_blackbox_tests.Registry.Layout.{Image, entry_at}

-- the tuple that `response` returns
pub record Answer : Type 0 where
  pub status : ℕ
  pub body : String
  pub media_type : String

pub record Registry : Type 0 where
  pub images : Dict Image
  pub requests : List String
  pub signatures : Dict String
  pub blobs : Dict (Dict String)
  pub serial : ℕ

-- `d.update(e)`
abbrev pub update_all {ℓ} : {A : Type ℓ} → Dict A → Dict A → Dict A
update_all d [] = d
update_all d ((k, v) ∷ e) = update_all (insert k v d) e

-- `Registry(images)`
unfoldable pub new : Dict Image → Registry
new images = record {
  images = images;
  requests = [];
  signatures = [];
  blobs = map (λ e. (e.0, e.1.blobs)) images;
  serial = 0;
}

-- `self.blobs.get(name, {})`
abbrev pub blobs_of : String → Dict (Dict String) → Dict String
blobs_of name blobs = elim (lookup name blobs) [ none ↦ [] | some d ↦ d ]

unfoldable pub publish : String → Image → Registry → Registry
publish name image r = record r {
  blobs = insert name (update_all (blobs_of name r.blobs) image.blobs) r.blobs;
  images = insert name image r.images;
  serial = suc r.serial;
}

-- `registry.signatures[path] = signature`
unfoldable pub sign : String → String → Registry → Registry
sign path signature r = record r { signatures = insert path signature r.signatures }

-- `path.strip("/")`
abbrev pub left_slash : String → String
left_slash String.[] = String.[]
left_slash (String.◌∷◌ c s) =
    let rest = left_slash s in if eqb (code c) b'/' then rest else String.◌∷◌ c s

abbrev pub right_slash : String → String
right_slash String.[] = String.[]
right_slash (String.◌∷◌ c s) =
    let rest = right_slash s in
    if eqb (code c) b'/' && is_empty rest then String.[] else String.◌∷◌ c rest

unfoldable pub parts_of : String → List String
parts_of path = let (part, rest) = split_at b'/' (right_slash (left_slash path)) in part ∷ rest

abbrev pub answer_of : ℕ → String → String → Result Answer
answer_of status body media_type =
    ok (record { status = status; body = body; media_type = media_type })

-- the last two tests of a path
abbrev pub fallback : String → Result Answer
fallback path =
    if path == "/v2" || path == "/v2/"
    then answer_of 200 "{}" "application/json"
    else answer_of 404 "not found" "text/plain"

-- `if kind == "blobs" and ...: return ...`, and on to `next`
unfoldable pub blob_answer : Registry → String → String → String → Result Answer → Result Answer
blob_answer r name kind digest next =
    if kind == "blobs"
    then elim (lookup digest (blobs_of name r.blobs)) [
      | none ↦ next
      | some body ↦ answer_of 200 body "application/octet-stream"
    ]
    else next

module _ (show : Value → String) where
  -- `str(value)`
  abbrev pub str : Value → String
  str (text s) = s
  str v = show v

  abbrev pub manifest_of : Image → Result Answer
  manifest_of image = do
    body ← entry_at image.digest image.blobs
    media_type ← entry_at "MediaType" image.described
    answer_of 200 body (str media_type)

  abbrev pub image_answer : Option Image → String → Result Answer → Result Answer
  image_answer none digest next = next
  image_answer (some image) digest next =
      if digest == "latest" || digest == image.digest then manifest_of image else next

  unfoldable pub manifest_answer :
      Registry → String → String → String → Result Answer → Result Answer
  manifest_answer r name kind digest next =
      if kind == "manifests" then image_answer (lookup name r.images) digest next else next

  unfoldable pub image_parts : Registry → List String → Result Answer → Result Answer
  unfolding manifest_answer blob_answer
  image_parts r (version ∷ name ∷ kind ∷ digest ∷ []) next =
      if version == "v2"
      then manifest_answer r name kind digest (blob_answer r name kind digest next)
      else next
  image_parts r parts next = next

  module _ (dumps : Value → String) (path_of : String → String) where
    abbrev pub result_of : String × Image → Value
    result_of (name, image) = dict (
        entries (
          ("Name", text name)
          ∷ ("Images", list (items (dict (entries image.described) ∷ [])))
          ∷ ("Lists", list nil)
          ∷ []))

    abbrev pub index_body : Registry → Value
    index_body r = dict (
        entries (
          ("Registry", text "/")
          ∷ ("Results", list (items (map result_of (sorted_items r.images))))
          ∷ []))

    unfoldable pub answer : Registry → String → Result Answer
    unfolding image_parts
    answer r path = elim (lookup path r.signatures) [
      | some body ↦ answer_of 200 body "application/octet-stream"
      | none ↦
          if path == "/index/static" || path == "/index/dynamic"
          then answer_of 200 (dumps (index_body r)) "application/json"
          else image_parts r (parts_of path) (fallback path)
    ]

    -- The request is recorded, also when the answer raises.
    unfoldable pub response : String → Registry → Result Answer × Registry
    unfolding answer
    response url r =
        (answer r (path_of url), record r { requests = r.requests ++ path_of url ∷ [] })
