-- ===== src/Schema/Shapes/Catalogue.antt =====
-- The TypedDicts of catalogue.py and catalogue_schema.py.
use flatpak_blackbox_tests.Base.{true, false, [], ◌∷◌}
use flatpak_blackbox_tests.Typed.Forms.{
  Annotation, Fields, str, bool_type, int_type, typed_dict, literal, list_of, dict_of, union,
  no_fields, declare, none_of, either, extend,
}

abbrev pub kind : Annotation
kind = literal ("cli-command" ∷ "cli-option" ∷ "library-function" ∷ "library-signal" ∷ [])

unfoldable pub source_fields : Fields
source_fields = (declare "path" true str (declare "anchor" true str no_fields))

abbrev pub source : Annotation
source = typed_dict source_fields

unfoldable pub surface_required_fields : Fields
surface_required_fields =
    (declare "id" true str (
      declare "kind" true kind
        (declare "name" true str (declare "sources" true (list_of source) no_fields))))

abbrev pub surface_required : Annotation
surface_required = typed_dict surface_required_fields

unfoldable pub surface_fields : Fields
unfolding surface_required_fields
surface_fields = extend surface_required_fields (
    declare "aliases" false (list_of str) (
      declare "documented_with" false (list_of str) (
        declare "command" false str (
          declare "owner" false str
            (declare "deprecated" false bool_type (declare "replacement" false str no_fields))))))

abbrev pub surface : Annotation
surface = typed_dict surface_fields

unfoldable pub reference_fields : Fields
reference_fields = (declare "commit" true str (declare "sources" true (dict_of str str) no_fields))

abbrev pub reference : Annotation
reference = typed_dict reference_fields

unfoldable pub catalogue_fields : Fields
catalogue_fields =
    (declare "schema" true int_type (
      declare "reference" true reference (
        declare "limitations" true (list_of str)
          (declare "surfaces" true (list_of surface) no_fields))))

abbrev pub catalogue : Annotation
catalogue = typed_dict catalogue_fields

abbrev pub interface : Annotation
interface = literal ("cli" ∷ "library" ∷ [])

abbrev pub profile : Annotation
profile = literal ("user" ∷ "system" ∷ "any" ∷ [])

unfoldable pub identified_fields : Fields
identified_fields = (declare "id" true str no_fields)

abbrev pub identified : Annotation
identified = typed_dict identified_fields

unfoldable pub behavior_metadata_fields : Fields
unfolding identified_fields
behavior_metadata_fields = extend identified_fields (
    declare "description" false str (
      declare "preconditions" false (union (either str (either (list_of str) none_of))) (
        declare "expected" false (union (either str (either (list_of str) none_of))) (
          declare "references" false (list_of str) (
            declare "handler" false str (
              declare "execution_environment" false str
                (declare "notes" false (list_of str) no_fields)))))))

abbrev pub behavior_metadata : Annotation
behavior_metadata = typed_dict behavior_metadata_fields

unfoldable pub behavior_fields : Fields
unfolding behavior_metadata_fields
behavior_fields = extend behavior_metadata_fields (
    declare "gap" false str (
      declare "scenario" false str (
        declare "profile" false profile (
          declare "drivers" false (list_of interface)
            (declare "required_capabilities" false (list_of str) no_fields)))))

abbrev pub behavior : Annotation
behavior = typed_dict behavior_fields

unfoldable pub executable_behavior_fields : Fields
unfolding behavior_metadata_fields
executable_behavior_fields = extend behavior_metadata_fields (
    declare "scenario" true str (
      declare "profile" true profile (
        declare "drivers" true (list_of interface)
          (declare "required_capabilities" true (list_of str) no_fields))))

abbrev pub executable_behavior : Annotation
executable_behavior = typed_dict executable_behavior_fields

unfoldable pub gap_required_fields : Fields
unfolding behavior_metadata_fields
gap_required_fields = extend behavior_metadata_fields (declare "gap" true str no_fields)

abbrev pub gap_required : Annotation
gap_required = typed_dict gap_required_fields

unfoldable pub gap_behavior_fields : Fields
unfolding gap_required_fields
gap_behavior_fields = extend gap_required_fields (
    declare "profile" false profile (
      declare "drivers" false (list_of interface)
        (declare "required_capabilities" false (list_of str) no_fields)))

abbrev pub gap_behavior : Annotation
gap_behavior = typed_dict gap_behavior_fields

unfoldable pub surface_assertion_fields : Fields
unfolding identified_fields
surface_assertion_fields = extend identified_fields (declare "rationale" true str no_fields)

abbrev pub surface_assertion : Annotation
surface_assertion = typed_dict surface_assertion_fields

unfoldable pub mapping_required_fields : Fields
mapping_required_fields =
    (declare "behavior_id" true str (
      declare "driver" true interface (
        declare "profile" true profile
          (declare "requirements" true (list_of str) (declare "rationale" true str no_fields)))))

abbrev pub mapping_required : Annotation
mapping_required = typed_dict mapping_required_fields

unfoldable pub coverage_mapping_fields : Fields
unfolding mapping_required_fields
coverage_mapping_fields = extend mapping_required_fields (
    declare "surface_assertions" false (list_of surface_assertion) (
      declare "equivalent_options" false (list_of surface_assertion)
        (declare "notes" false (list_of str) no_fields)))

abbrev pub coverage_mapping : Annotation
coverage_mapping = typed_dict coverage_mapping_fields

unfoldable pub client_fields : Fields
client_fields = (declare "source" true str (declare "entry" true str no_fields))

abbrev pub client : Annotation
client = typed_dict client_fields

unfoldable pub inventory_fields : Fields
inventory_fields =
    (declare "schema" true int_type (declare "behaviors" true (list_of behavior) no_fields))

abbrev pub inventory : Annotation
inventory = typed_dict inventory_fields

unfoldable pub scenario_group_required_fields : Fields
unfolding inventory_fields
scenario_group_required_fields =
    extend inventory_fields (declare "mappings" true (list_of coverage_mapping) no_fields)

abbrev pub scenario_group_required : Annotation
scenario_group_required = typed_dict scenario_group_required_fields

unfoldable pub scenario_group_fields : Fields
unfolding scenario_group_required_fields
scenario_group_fields =
    extend scenario_group_required_fields
      (declare "client" false client (declare "notes" false (list_of str) no_fields))

abbrev pub scenario_group : Annotation
scenario_group = typed_dict scenario_group_fields

unfoldable pub mapping_document_fields : Fields
mapping_document_fields =
    (declare "schema" true int_type (declare "cases" true (list_of coverage_mapping) no_fields))

abbrev pub mapping_document : Annotation
mapping_document = typed_dict mapping_document_fields

unfoldable pub requirement_fields : Fields
unfolding identified_fields
requirement_fields = extend identified_fields (
    declare "interface" true interface (
      declare "profile" true profile (
        declare "category" true str (
          declare "description" true str (
            declare "sources" true (list_of source) (
              declare "surfaces" true (list_of str)
                (declare "required_capabilities" true (list_of str) no_fields)))))))

abbrev pub requirement : Annotation
requirement = typed_dict requirement_fields

unfoldable pub requirements_required_fields : Fields
requirements_required_fields =
    (declare "schema" true int_type (
      declare "scope" true interface (
        declare "limitations" true (list_of str)
          (declare "requirements" true (list_of requirement) no_fields))))

abbrev pub requirements_required : Annotation
requirements_required = typed_dict requirements_required_fields

unfoldable pub requirements_document_fields : Fields
unfolding requirements_required_fields
requirements_document_fields =
    extend requirements_required_fields (declare "includes" false (list_of str) no_fields)

abbrev pub requirements_document : Annotation
requirements_document = typed_dict requirements_document_fields
