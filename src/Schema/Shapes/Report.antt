-- ===== src/Schema/Shapes/Report.antt =====
-- The TypedDicts of report_schema.py.
use flatpak_blackbox_tests.Base.{true, false}
use flatpak_blackbox_tests.Schema.Shapes.Fixture.{fixture_manifest}
use flatpak_blackbox_tests.Schema.Shapes.Catalogue.{gap_behavior}
use flatpak_blackbox_tests.Typed.Forms.{
  Annotation, Fields, json, str, bool_type, int_type, float_type, none_type, typed_dict, list_of,
  dict_of, union, no_fields, declare, none_of, either, extend,
}

unfoldable pub definition_fields : Fields
definition_fields =
    (declare "schema" true int_type (
      declare "fingerprint" true str (
        declare "files" true (dict_of str str) (
          declare "policy_sha256" true str
            (declare "loader_sha256" true str (declare "reference_commit" true str no_fields))))))

abbrev pub definition : Annotation
definition = typed_dict definition_fields

unfoldable pub case_identity_fields : Fields
case_identity_fields =
    (declare "behavior_id" true str
      (declare "driver" true str (declare "profile" true str no_fields)))

abbrev pub case_identity : Annotation
case_identity = typed_dict case_identity_fields

unfoldable pub repository_request_fields : Fields
repository_request_fields =
    (declare "path" true str
      (declare "version" true str (declare "blocked" true bool_type no_fields)))

abbrev pub repository_request : Annotation
repository_request = typed_dict repository_request_fields

unfoldable pub sideload_network_observation_fields : Fields
sideload_network_observation_fields =
    (declare "requests" true (list_of repository_request) no_fields)

abbrev pub sideload_network_observation : Annotation
sideload_network_observation = typed_dict sideload_network_observation_fields

unfoldable pub query_network_observation_fields : Fields
unfolding sideload_network_observation_fields
query_network_observation_fields = extend sideload_network_observation_fields (
    declare "cached_query_requests" true int_type
      (declare "uncached_query_requests" true int_type no_fields))

abbrev pub query_network_observation : Annotation
query_network_observation = typed_dict query_network_observation_fields

unfoldable pub sideload_image_network_observation_fields : Fields
unfolding sideload_network_observation_fields
sideload_image_network_observation_fields =
    extend sideload_network_observation_fields
      (declare "remote_contains_images" true bool_type no_fields)

abbrev pub sideload_image_network_observation : Annotation
sideload_image_network_observation = typed_dict sideload_image_network_observation_fields

unfoldable pub evidence_record_fields : Fields
evidence_record_fields =
    (declare "argv" false (list_of str) (
      declare "cli_argv" false (list_of str) (
        declare "interface" false str (
          declare "exit_status" false int_type (
            declare "stdout" false str (
              declare "stderr" false str (
                declare "api_calls" false (list_of str) (
                  declare "signals" false (list_of str) (
                    declare "observation" false str (
                      declare "data" false json (
                        declare "error" false str (
                          declare "timed_out" false bool_type (
                            declare "role" false str (
                              declare "mode" false str (
                                declare "xdg_data_home" false str (
                                  declare "cleanup_confirmed" false bool_type (
                                    declare "query_network_observation" false
                                      query_network_observation
                                      (declare "sideload_image_network_observation" false
                                        sideload_image_network_observation
                                        (declare "sideload_network_observation" false
                                          sideload_network_observation no_fields)))))))))))))))))))

abbrev pub evidence_record : Annotation
evidence_record = typed_dict evidence_record_fields

unfoldable pub case_status_fields : Fields
unfolding case_identity_fields
case_status_fields = extend case_identity_fields (declare "status" true str no_fields)

abbrev pub case_status : Annotation
case_status = typed_dict case_status_fields

unfoldable pub case_timings_fields : Fields
case_timings_fields =
    (declare "setup_seconds" true float_type (
      declare "execution_seconds" true float_type
        (declare "cleanup_seconds" true float_type no_fields)))

abbrev pub case_timings : Annotation
case_timings = typed_dict case_timings_fields

unfoldable pub case_result_fields : Fields
unfolding case_status_fields
case_result_fields = extend case_status_fields (
    declare "duration_seconds" false float_type (
      declare "timings" false case_timings (
        declare "evidence" false (list_of evidence_record) (
          declare "cleanup_complete" false bool_type (
            declare "cleanup_error" false str (
              declare "error" false str (
                declare "target_version" false (union (either str (either none_type none_of))) (
                  declare "required_capabilities" false (list_of str) (
                    declare "unsupported_capabilities" false (dict_of str str) (
                      declare "state_directory" false str (
                        declare "repository_requests" false (list_of repository_request)
                          no_fields)))))))))))

abbrev pub case_result : Annotation
case_result = typed_dict case_result_fields

unfoldable pub artifact_provenance_fields : Fields
artifact_provenance_fields = (declare "path" false str (declare "sha256" false str no_fields))

abbrev pub artifact_provenance : Annotation
artifact_provenance = typed_dict artifact_provenance_fields

unfoldable pub target_provenance_fields : Fields
target_provenance_fields =
    (declare "configuration_sha256" false str (
      declare "cli_path" false str (
        declare "cli_sha256" false str
          (declare "adapter_files" false (list_of artifact_provenance) no_fields))))

abbrev pub target_provenance : Annotation
target_provenance = typed_dict target_provenance_fields

unfoldable pub fixture_provenance_fields : Fields
fixture_provenance_fields =
    (declare "path" false str (declare "manifest_sha256" false str no_fields))

abbrev pub fixture_provenance : Annotation
fixture_provenance = typed_dict fixture_provenance_fields

unfoldable pub library_provenance_fields : Fields
unfolding artifact_provenance_fields
library_provenance_fields = extend artifact_provenance_fields (
    declare "package_version" false str (
      declare "client_sha256" false str
        (declare "api_features" false (dict_of str bool_type) no_fields)))

abbrev pub library_provenance : Annotation
library_provenance = typed_dict library_provenance_fields

unfoldable pub artifact_integrity_fields : Fields
artifact_integrity_fields =
    (declare "status" false str (
      declare "errors" false (list_of str) (declare "changed_paths" false (list_of str) no_fields)))

abbrev pub artifact_integrity : Annotation
artifact_integrity = typed_dict artifact_integrity_fields

unfoldable pub report_schema_fields : Fields
report_schema_fields = (declare "schema" true int_type no_fields)

abbrev pub report_schema : Annotation
report_schema = typed_dict report_schema_fields

unfoldable pub coverage_metric_fields : Fields
coverage_metric_fields =
    (declare "total" true int_type (
      declare "implemented" true int_type (
        declare "implemented_percent" true (union (either float_type (either none_type none_of))) (
          declare "passed" true (union (either int_type (either none_type none_of))) (
            declare "passed_percent" true (union (either float_type (either none_type none_of)))
              no_fields)))))

abbrev pub coverage_metric : Annotation
coverage_metric = typed_dict coverage_metric_fields

unfoldable pub verification_fields : Fields
verification_fields = (declare "status" true str (declare "reason" true str no_fields))

abbrev pub verification : Annotation
verification = typed_dict verification_fields

unfoldable pub coverage_metrics_fields : Fields
coverage_metrics_fields =
    (declare "behaviors" true (dict_of str coverage_metric) (
      declare "surfaces" true (dict_of str coverage_metric) (
        declare "profiles" true (dict_of str (dict_of str coverage_metric))
          (declare "categories" true (dict_of str (dict_of str coverage_metric)) no_fields))))

abbrev pub coverage_metrics : Annotation
coverage_metrics = typed_dict coverage_metrics_fields

unfoldable pub cli_option_accounting_fields : Fields
cli_option_accounting_fields =
    (declare "equivalence_checks" true coverage_metric (
      declare "accounted" true coverage_metric
        (declare "equivalence_evidence" true (dict_of str (list_of case_identity)) no_fields)))

abbrev pub cli_option_accounting : Annotation
cli_option_accounting = typed_dict cli_option_accounting_fields

unfoldable pub coverage_summary_required_fields : Fields
coverage_summary_required_fields =
    (declare "schema" true int_type (
      declare "definition" true definition (
        declare "verification" true verification (
          declare "metrics" true coverage_metrics (
            declare "case_statuses" true (dict_of str int_type) (
              declare "evidence" true (dict_of str (list_of case_identity)) (
                declare "interface_evidence" true (dict_of str (list_of case_identity)) (
                  declare "requirement_capabilities" true (dict_of str (list_of str)) (
                    declare "all_possible_behavior_percent" true none_type (
                      declare "recorded_execution" true
                        (union (either (dict_of str json) (either none_type none_of)))
                        (declare "surfaces_without_catalogued_requirements" true (list_of str) (
                          declare "unimplemented_requirements" true (list_of str) (
                            declare "unverified_requirements" true
                              (union (either (list_of str) (either none_type none_of)))
                              (declare "limitations" true (list_of str) no_fields))))))))))))))

abbrev pub coverage_summary_required : Annotation
coverage_summary_required = typed_dict coverage_summary_required_fields

unfoldable pub coverage_summary_fields : Fields
unfolding coverage_summary_required_fields
coverage_summary_fields =
    extend coverage_summary_required_fields
      (declare "cli_option_accounting" false cli_option_accounting no_fields)

abbrev pub coverage_summary : Annotation
coverage_summary = typed_dict coverage_summary_fields

unfoldable pub run_report_fields : Fields
unfolding report_schema_fields
run_report_fields = extend report_schema_fields (
    declare "duration_seconds" false float_type (
      declare "results" false (list_of case_result) (
        declare "coverage_definition" false definition (
          declare "complete" false bool_type (
            declare "target" false str (
              declare "target_configuration" false str (
                declare "target_version" false str (
                  declare "started_at" false str (
                    declare "finished_at" false str (
                      declare "target_provenance" false target_provenance (
                        declare "library_provenance" false library_provenance (
                          declare "fixture_provenance" false fixture_provenance (
                            declare "artifact_integrity" false artifact_integrity (
                              declare "declared_unsupported_capabilities" false (dict_of str str) (
                                declare "setup_evidence" false (list_of evidence_record) (
                                  declare "setup_error" false str (
                                    declare "setup_status" false str (
                                      declare "full_compatibility" false bool_type (
                                        declare "fixture" false fixture_manifest (
                                          declare "gaps" false (list_of gap_behavior) (
                                            declare "coverage" false coverage_summary
                                              no_fields)))))))))))))))))))))

abbrev pub run_report : Annotation
run_report = typed_dict run_report_fields
