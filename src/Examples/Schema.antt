-- ===== src/Examples/Schema.antt =====
-- A behavior that can be executed, and a document of one requirement.
use flatpak_blackbox_tests.Base.{true, some, List, [], ◌∷◌, is_unique, ◌≡◌, refl}
use flatpak_blackbox_tests.Base.Int.{pos}
use flatpak_blackbox_tests.Base.Dict.{Dict, keys, lookup}
use flatpak_blackbox_tests.Json.Value.{
  Value, int, text, list, dict, nil, cons, root, field, ok, entries,
}
use flatpak_blackbox_tests.Json.Validate.{
  object_map, array, json_value, string, integer, schema_one,
}
use flatpak_blackbox_tests.Typed.{parse_typed, validate, check_required, check_items}
use flatpak_blackbox_tests.Typed.Conforms.{Conforms}
use flatpak_blackbox_tests.Schema.Index.{indexed, members, IsKeyed}
use flatpak_blackbox_tests.Schema.Shapes.Catalogue.{
  requirements_document as requirements_shape, requirements_document_fields, requirement_fields,
  executable_behavior_fields,
}
use flatpak_blackbox_tests.Schema.Behaviors.{executable_behavior, item_id, parse_requirements}
use flatpak_blackbox_tests.Schema.Behaviors.Laws.{
  IsExecutable, executable_behavior-IsExecutable, parse_requirements-distinct,
}

abbrev behavior : Dict Value
behavior =
    ("id", text "B1")
    ∷ ("scenario", text "list_user")
    ∷ ("profile", text "user")
    ∷ ("drivers", list (cons (text "cli") (cons (text "library") nil)))
    ∷ ("required_capabilities", list nil)
    ∷ []

behavior_read : executable_behavior (dict (entries behavior)) (root "behavior") ≡ ok behavior
unfolding executable_behavior object_map parse_typed json_value validate check_required
    executable_behavior_fields array check_items string
behavior_read = refl

executable_behavior-IsExecutable_example : IsExecutable (root "behavior") behavior
executable_behavior-IsExecutable_example =
    executable_behavior-IsExecutable (dict (entries behavior)) (root "behavior") behavior
      behavior_read

abbrev requirement : Dict Value
requirement =
    ("id", text "R1")
    ∷ ("interface", text "cli")
    ∷ ("profile", text "user")
    ∷ ("category", text "query")
    ∷ ("description", text "lists")
    ∷ ("sources", list nil)
    ∷ ("surfaces", list nil)
    ∷ ("required_capabilities", list nil)
    ∷ []

abbrev document : Value
document = dict (
    entries (
      ("schema", int (pos 1))
      ∷ ("scope", text "cli")
      ∷ ("limitations", list nil)
      ∷ ("requirements", list (cons (dict (entries requirement)) nil))
      ∷ []))

document_read : parse_requirements document (root "requirements") ≡ ok document
unfolding parse_requirements parse_typed json_value validate object_map check_required
    requirements_document_fields integer array check_items requirement_fields schema_one indexed
    string
document_read = refl

parse_requirements-distinct_example :
    Conforms requirements_shape document
    × ((r : Dict Value) × (raw : Value) × (vs : List Value) × (known : Dict Value) × (object_map
            document
            (root "requirements")
          ≡ ok r)
        × (lookup "requirements" r ≡ some raw)
        × (array raw (field (root "requirements") "requirements") ≡ ok vs)
        × (members item_id "requirement" known ≡ vs)
        × IsKeyed item_id "requirement" known
        × (is_unique (keys known) ≡ true))
parse_requirements-distinct_example =
    parse_requirements-distinct document (root "requirements") document document_read
