-- ===== src/Schema/Behaviors.antt =====
-- catalogue_schema.py: the parsers of behaviors, inventories, mappings and requirements. Python's
-- `str.isidentifier` is a parameter.
pub mod Laws
use Prim.Native.Char.{code}
use flatpak_blackbox_tests.Base.{
  ℕ, ◌+◌, String, Bool, true, false, not, ◌&&◌, Option, none, some, List, [], ◌∷◌, if◌then◌else◌,
  is_unique, eqb,
}
use flatpak_blackbox_tests.Base.Dict.{Dict, has, insert, lookup, set_default}
use flatpak_blackbox_tests.Json.Value.{
  Value, text, list, dict, nil, FieldPath, field, item, bad_drivers, bad_handler, invalid, Result,
  ok, err, ◌>>=◌, ◌>>◌, guard, entries, items, values,
}
use flatpak_blackbox_tests.Json.Validate.{object_map, array, string, required}
use flatpak_blackbox_tests.Typed.{parse_typed}
use flatpak_blackbox_tests.Typed.Forms.{Annotation}
use flatpak_blackbox_tests.Schema.Index.{indexed}
use flatpak_blackbox_tests.Schema.Shapes.Catalogue.{
  executable_behavior as executable_shape, behavior as behavior_shape, gap_behavior as gap_shape,
  inventory as inventory_shape, mapping_document as mapping_shape,
  requirements_document as requirements_shape,
}

-- `parse_typed` of an object that was read already
unfoldable pub typed : Dict Value → Annotation → FieldPath → Result (Dict Value)
typed d schema path = do w ← parse_typed (dict (entries d)) schema path; object_map w path

-- `item["id"]`
abbrev pub item_id : Value → Result Value
item_id v = do d ← object_map v (FieldPath.root "item"); required d "id" (FieldPath.root "item")

abbrev pub texts_in : List Value → List String
texts_in [] = []
texts_in (text s ∷ vs) = s ∷ texts_in vs
texts_in (v ∷ vs) = texts_in vs

abbrev pub is_nonempty : List String → Bool
is_nonempty [] = false
is_nonempty (s ∷ ss) = true

unfoldable pub executable_behavior : Value → FieldPath → Result (Dict Value)
unfolding typed
executable_behavior value path = do
  data' ← object_map value path
  result ← typed (set_default "required_capabilities" (list nil) data') executable_shape path
  raw ← required result "scenario" path
  s ← string raw (field path "scenario") true
  drivers_value ← required result "drivers" path
  drivers ← array drivers_value (field path "drivers")
  guard (is_nonempty (texts_in drivers) && is_unique (texts_in drivers))
      (invalid (field path "drivers") bad_drivers)
  ok result

-- `s.partition(":")`, and `none` where there is no separator
abbrev pub partition : String → Option (String × String)
partition String.[] = none
partition (String.◌∷◌ c s) =
    let rest = partition s in
    if eqb (code c) b':'
    then some ("", s)
    else elim rest [ none ↦ none | some p ↦ some (String.◌∷◌ c p.0, p.1) ]

module _ (is_identifier : String → Bool) where
  abbrev pub is_handler : String → Bool
  is_handler s = elim (partition s) [
    | none ↦ false
    | some p ↦ is_identifier p.0 && is_identifier p.1
  ]

  abbrev pub check_handler : Option Value → FieldPath → Result (Unit {0})
  check_handler (some (text s)) path = guard (is_handler s) (invalid path bad_handler)
  check_handler _ path = ok tt

  -- The first pass, by the presence of a scenario, returns the data that the second one types.
  unfoldable pub first_pass : Dict Value → FieldPath → Result (Dict Value)
  unfolding executable_behavior
  first_pass data' path =
      let filled = set_default "required_capabilities" (list nil) data' in
      if has "scenario" data'
      then (do checked ← executable_behavior (dict (entries filled)) path; ok filled)
      else do
        checked ← typed data' gap_shape path
        raw ← required data' "gap" path
        s ← string raw (field path "gap") true
        ok data'

  unfoldable pub parse_behavior : Value → FieldPath → Result (Dict Value)
  unfolding first_pass
  parse_behavior value path = do
    raw ← object_map value path
    data' ← first_pass raw path
    result ← typed data' behavior_shape path
    id_value ← required result "id" path
    s ← string id_value (field path "id") true
    check_handler (lookup "handler" result) (field path "handler")
    ok result

  unfoldable pub parse_gap : Value → FieldPath → Result (Dict Value)
  unfolding parse_behavior
  parse_gap value path = do
    behavior ← parse_behavior value path
    result ← typed behavior gap_shape path
    raw ← required result "gap" path
    s ← string raw (field path "gap") true
    ok result

  unfoldable pub behavior_items : List Value → FieldPath → ℕ → Result (List Value)
  unfolding parse_behavior
  behavior_items [] path index = ok []
  behavior_items (v ∷ vs) path index = do
    b ← parse_behavior v (item path index)
    rest ← behavior_items vs path (index + 1)
    ok (dict (entries b) ∷ rest)

  -- `_behaviors`
  unfoldable pub with_behaviors : Dict Value → FieldPath → Result (Dict Value)
  unfolding behavior_items
  with_behaviors data' path = do
    raw ← required data' "behaviors" path
    vs ← array raw (field path "behaviors")
    parsed ← behavior_items vs (field path "behaviors") 0
    ok (insert "behaviors" (list (items parsed)) data')

  unfoldable pub parse_inventory : Value → FieldPath → Result (Dict Value)
  unfolding with_behaviors
  parse_inventory value path = do
    raw ← object_map value path
    data' ← with_behaviors raw path
    result ← typed data' inventory_shape path
    behaviors ← required result "behaviors" path
    vs ← array behaviors (field path "behaviors")
    known ← indexed item_id "behavior" vs
    ok result

unfoldable pub parse_mappings : Value → FieldPath → Result Value
parse_mappings value path = parse_typed value mapping_shape path

unfoldable pub parse_requirements : Value → FieldPath → Result Value
parse_requirements value path = do
  w ← parse_typed value requirements_shape path
  result ← object_map w path
  raw ← required result "requirements" path
  vs ← array raw (field path "requirements")
  known ← indexed item_id "requirement" vs
  ok w
