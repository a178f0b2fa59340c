-- ===== src/Schema/Shapes/Fixture.antt =====
-- The TypedDicts of fixture_manifest.py.
use flatpak_blackbox_tests.Base.{true, false}
use flatpak_blackbox_tests.Typed.Forms.{
  Annotation, Fields, str, bool_type, int_type, typed_dict, list_of, dict_of, no_fields, declare,
  extend,
}

unfoldable pub fixture_assets_fields : Fields
fixture_assets_fields = (declare "runtime_tree" true str (declare "app_tree" true str no_fields))

abbrev pub fixture_assets : Annotation
fixture_assets = typed_dict fixture_assets_fields

unfoldable pub fixture_size_fields : Fields
fixture_size_fields =
    (declare "installed" true int_type (declare "download" true int_type no_fields))

abbrev pub fixture_size : Annotation
fixture_size = typed_dict fixture_size_fields

unfoldable pub fixture_build_fields : Fields
fixture_build_fields =
    (declare "gpg_home" true str (
      declare "public_key" true str (
        declare "key_id" true str (
          declare "signed_repo" true str (
            declare "bundle" true str (
              declare "usb_repo" true str (
                declare "collection_id" true str (
                  declare "usb_commits" true (dict_of str str) (
                    declare "inheritance_tree" true str
                      (declare "permissions_repo" true str no_fields))))))))))

abbrev pub fixture_build : Annotation
fixture_build = typed_dict fixture_build_fields

unfoldable pub build_options_required_fields : Fields
build_options_required_fields = (declare "oci" true str (declare "oci_ref" true str no_fields))

abbrev pub build_options_required : Annotation
build_options_required = typed_dict build_options_required_fields

unfoldable pub fixture_build_options_fields : Fields
unfolding build_options_required_fields
fixture_build_options_fields = extend build_options_required_fields (
    declare "arch" false str (
      declare "arch_repo" false str (
        declare "arch_commits" false (dict_of str str)
          (declare "oci_updates" false (dict_of str str) no_fields))))

abbrev pub fixture_build_options : Annotation
fixture_build_options = typed_dict fixture_build_options_fields

unfoldable pub fixture_query_ref_fields : Fields
unfolding fixture_size_fields
fixture_query_ref_fields =
    extend fixture_size_fields (declare "commit" true str (declare "metadata" true str no_fields))

abbrev pub fixture_query_ref : Annotation
fixture_query_ref = typed_dict fixture_query_ref_fields

unfoldable pub fixture_query_version_fields : Fields
fixture_query_version_fields =
    (declare "repo" true str (
      declare "refs" true (dict_of str fixture_query_ref) (declare "appstream" true str no_fields)))

abbrev pub fixture_query_version : Annotation
fixture_query_version = typed_dict fixture_query_version_fields

unfoldable pub fixture_policy_extension_fields : Fields
fixture_policy_extension_fields =
    (declare "ref" true str (
      declare "commit" true str (
        declare "no_autodownload" true bool_type (
          declare "autodelete" true bool_type (
            declare "should_download" true bool_type
              (declare "should_delete" true bool_type no_fields))))))

abbrev pub fixture_policy_extension : Annotation
fixture_policy_extension = typed_dict fixture_policy_extension_fields

unfoldable pub queries_required_fields : Fields
queries_required_fields =
    (declare "app" true str (
      declare "second" true str (
        declare "extension" true str (
          declare "foreign_arch" true str (
            declare "versions" true (dict_of str fixture_query_version) (
              declare "bundle_urls" true str (
                declare "bundle_urls_size" true int_type (
                  declare "bundle_plain" true str (
                    declare "bundle_plain_size" true int_type (
                      declare "policy_repo" true str (
                        declare "policy_ref" true str (
                          declare "policy_commit" true str (
                            declare "policy_metadata" true str (
                              declare "policy_extensions" true (list_of fixture_policy_extension) (
                                declare "appstream" true str
                                  (declare "icons" true (dict_of str str) no_fields))))))))))))))))

abbrev pub queries_required : Annotation
queries_required = typed_dict queries_required_fields

unfoldable pub fixture_extension_mounts_fields : Fields
fixture_extension_mounts_fields =
    (declare "app" true str (
      declare "extension" true str (
        declare "app_repo" true str (
          declare "combined_repo" true str (
            declare "extension_repo" true str (
              declare "app_commit" true str (
                declare "runtime_commit" true str (
                  declare "combined_commit" true str (
                    declare "separate_commit" true str (
                      declare "combined_marker" true str
                        (declare "separate_marker" true str no_fields)))))))))))

abbrev pub fixture_extension_mounts : Annotation
fixture_extension_mounts = typed_dict fixture_extension_mounts_fields

unfoldable pub fixture_queries_fields : Fields
unfolding queries_required_fields
fixture_queries_fields = extend queries_required_fields (
    declare "search_kind_repo" false str (
      declare "selection_repo" false str (
        declare "selection_commits" false (dict_of str str)
          (declare "extension_mounts" false fixture_extension_mounts no_fields))))

abbrev pub fixture_queries : Annotation
fixture_queries = typed_dict fixture_queries_fields

unfoldable pub fixture_transactions_fields : Fields
fixture_transactions_fields =
    (declare "directory" true str (
      declare "apps" true (list_of str) (
        declare "commits" true (dict_of str (dict_of str str)) (
          declare "payloads" true (dict_of str (dict_of str (list_of str))) (
            declare "metadata" true (dict_of str str) (declare "eol_reason" true str no_fields))))))

abbrev pub fixture_transactions : Annotation
fixture_transactions = typed_dict fixture_transactions_fields

unfoldable pub fixture_contracts_fields : Fields
fixture_contracts_fields =
    (declare "repos" true (dict_of str str) (
      declare "refs" true (dict_of str str)
        (declare "commits" true (dict_of str (dict_of str str)) no_fields)))

abbrev pub fixture_contracts : Annotation
fixture_contracts = typed_dict fixture_contracts_fields

unfoldable pub auth_required_fields : Fields
auth_required_fields =
    (declare "directory" true str (
      declare "ref" true str
        (declare "commit" true str (declare "payloads" true (list_of str) no_fields))))

abbrev pub auth_required : Annotation
auth_required = typed_dict auth_required_fields

unfoldable pub fixture_auth_fields : Fields
unfolding auth_required_fields
fixture_auth_fields = extend auth_required_fields (
    declare "authenticator_ref" false str (
      declare "authenticator_commit" false str (
        declare "authenticator_runtime_ref" false str (
          declare "authenticator_runtime_commit" false str
            (declare "authenticator_binary" false str no_fields)))))

abbrev pub fixture_auth : Annotation
fixture_auth = typed_dict fixture_auth_fields

unfoldable pub fixture_extras_fields : Fields
fixture_extras_fields =
    (declare "transactions" false fixture_transactions
      (declare "auth" false fixture_auth no_fields))

abbrev pub fixture_extras : Annotation
fixture_extras = typed_dict fixture_extras_fields

unfoldable pub fixture_trigger_fields : Fields
fixture_trigger_fields = (declare "repo" true str (declare "commit" true str no_fields))

abbrev pub fixture_trigger : Annotation
fixture_trigger = typed_dict fixture_trigger_fields

unfoldable pub lifecycle_required_fields : Fields
lifecycle_required_fields =
    (declare "reference_version" true str (
      declare "image_A" true str (
        declare "payload_A" true str (
          declare "image_B" true str (
            declare "payload_B" true str (
              declare "signed_bundle" true str (
                declare "sideload_native" true str (
                  declare "sideload" true str (
                    declare "usage_repo" true str (
                      declare "usage_app" true str (
                        declare "usage_sdk" true str (
                          declare "usage_metadata" true str (
                            declare "usage_app_commit" true str (
                              declare "usage_sdk_commit" true str (
                                declare "trigger_app" true str (
                                  declare "triggers" true (dict_of str fixture_trigger)
                                    no_fields))))))))))))))))

abbrev pub lifecycle_required : Annotation
lifecycle_required = typed_dict lifecycle_required_fields

unfoldable pub fixture_lifecycle_extra_fields : Fields
unfolding lifecycle_required_fields
fixture_lifecycle_extra_fields = extend lifecycle_required_fields (
    declare "foreign_bundle" false str (
      declare "sideload_update_repo" false str (
        declare "sideload_update" false str
          (declare "sideload_update_commit" false str no_fields))))

abbrev pub fixture_lifecycle_extra : Annotation
fixture_lifecycle_extra = typed_dict fixture_lifecycle_extra_fields

unfoldable pub fixture_required_fields : Fields
fixture_required_fields =
    (declare "schema" true int_type (
      declare "arch" true str (
        declare "app" true str (
          declare "runtime" true str (
            declare "branch" true str (
              declare "commits" true (dict_of str str) (
                declare "runtime_commit" true str
                  (declare "sha256" true (dict_of str str) no_fields))))))))

abbrev pub fixture_required : Annotation
fixture_required = typed_dict fixture_required_fields

unfoldable pub fixture_manifest_fields : Fields
unfolding fixture_required_fields
fixture_manifest_fields = extend fixture_required_fields (
    declare "directory" false str (
      declare "reference_version" false str (
        declare "compiler" false str (
          declare "assets" false fixture_assets (
            declare "sizes" false (dict_of str (dict_of str fixture_size)) (
              declare "build" false fixture_build (
                declare "build_options" false fixture_build_options (
                  declare "queries" false fixture_queries (
                    declare "extras" false fixture_extras (
                      declare "lifecycle_extra" false fixture_lifecycle_extra
                        (declare "contracts" false fixture_contracts no_fields)))))))))))

abbrev pub fixture_manifest : Annotation
fixture_manifest = typed_dict fixture_manifest_fields

unfoldable pub fixture_build_entries_fields : Fields
fixture_build_entries_fields =
    (declare "build" false fixture_build
      (declare "build_options" false fixture_build_options no_fields))

abbrev pub fixture_build_entries : Annotation
fixture_build_entries = typed_dict fixture_build_entries_fields

unfoldable pub fixture_query_entries_fields : Fields
fixture_query_entries_fields = (declare "queries" true fixture_queries no_fields)

abbrev pub fixture_query_entries : Annotation
fixture_query_entries = typed_dict fixture_query_entries_fields
