-- ===== src/Fixture/Parts.antt =====
-- fixture_manifest.py: the parsers of the groups that hold no domain constraint.
use flatpak_blackbox_tests.Base.{false, [], ◌∷◌, ◌++◌}
use flatpak_blackbox_tests.Base.Dict.{Dict}
use flatpak_blackbox_tests.Json.Value.{Value, FieldPath, Result}
use flatpak_blackbox_tests.Fixture.Plan.{
  take, demand, always, given, as_text, as_texts, as_map, as_dict, as_group, text_field,
  text_fields, size_field, flag_field, optional, Reader, group,
}

unfoldable pub parse_assets : Value → FieldPath → Result (Dict Value)
parse_assets = group (text_fields ("runtime_tree" ∷ "app_tree" ∷ []))

unfoldable pub parse_size : Value → FieldPath → Result (Dict Value)
parse_size = group (size_field "installed" ∷ size_field "download" ∷ [])

-- versions, and in each its refs
unfoldable pub parse_sizes : Reader
parse_sizes = as_dict (as_dict (as_group parse_size))

unfoldable pub parse_build : Value → FieldPath → Result (Dict Value)
parse_build = group (
    text_fields (
      "gpg_home" ∷ "public_key" ∷ "key_id" ∷ "signed_repo" ∷ "bundle" ∷ "usb_repo" ∷ "collection_id"
      ∷ [])
    ++ always (take "usb_commits" (as_map false))
      ∷ text_fields ("inheritance_tree" ∷ "permissions_repo" ∷ []))

unfoldable pub parse_query_ref : Value → FieldPath → Result (Dict Value)
parse_query_ref = group (
    text_field "commit"
    ∷ text_field "metadata"
    ∷ size_field "installed"
    ∷ size_field "download"
    ∷ [])

unfoldable pub parse_query_version : Value → FieldPath → Result (Dict Value)
parse_query_version = group (
    text_field "repo"
    ∷ text_field "appstream"
    ∷ always (take "refs" (as_dict (as_group parse_query_ref)))
    ∷ [])

unfoldable pub parse_policy_extension : Value → FieldPath → Result (Dict Value)
parse_policy_extension = group (
    text_field "ref"
    ∷ text_field "commit"
    ∷ flag_field "no_autodownload"
    ∷ flag_field "autodelete"
    ∷ flag_field "should_download"
    ∷ flag_field "should_delete"
    ∷ [])

unfoldable pub parse_extension_mounts : Value → FieldPath → Result (Dict Value)
parse_extension_mounts = group (
    text_fields (
      "app" ∷ "extension" ∷ "app_repo" ∷ "combined_repo" ∷ "extension_repo" ∷ "app_commit"
      ∷ "runtime_commit" ∷ "combined_commit" ∷ "separate_commit" ∷ "combined_marker"
      ∷ "separate_marker" ∷ []))

unfoldable pub parse_auth : Value → FieldPath → Result (Dict Value)
parse_auth = group (
    text_fields ("directory" ∷ "ref" ∷ "commit" ∷ [])
    ++ always (take "payloads" as_texts)
      ∷ given "authenticator_ref"
          (take "authenticator_ref" as_text ∷ take "authenticator_commit" as_text ∷ [])
      ∷ given "authenticator_binary" (
          demand "authenticator_ref"
          ∷ take "authenticator_binary" as_text
          ∷ take "authenticator_runtime_ref" as_text
          ∷ take "authenticator_runtime_commit" as_text
          ∷ [])
      ∷ [])

unfoldable pub parse_trigger : Value → FieldPath → Result (Dict Value)
parse_trigger = group (text_fields ("repo" ∷ "commit" ∷ []))

unfoldable pub parse_lifecycle_extra : Value → FieldPath → Result (Dict Value)
parse_lifecycle_extra = group (
    text_fields (
      "reference_version" ∷ "image_A" ∷ "payload_A" ∷ "image_B" ∷ "payload_B" ∷ "signed_bundle"
      ∷ "sideload_native" ∷ "sideload" ∷ "usage_repo" ∷ "usage_app" ∷ "usage_sdk" ∷ "usage_metadata"
      ∷ "usage_app_commit" ∷ "usage_sdk_commit" ∷ "trigger_app" ∷ [])
    ++ always (take "triggers" (as_dict (as_group parse_trigger)))
      ∷ optional "foreign_bundle" as_text
      ∷ given "sideload_update_repo" (
          take "sideload_update_repo" as_text
          ∷ take "sideload_update" as_text
          ∷ take "sideload_update_commit" as_text
          ∷ [])
      ∷ [])
