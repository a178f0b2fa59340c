-- ===== src/Scenarios/Laws.antt =====
-- The behaviors that `load_behaviors` returns.
use mathlib.Core.List.{append_assoc, append-nil}
use flatpak_blackbox_tests.Base.{String, true, List, [], ◌∷◌, ◌++◌, is_unique, ◌≡◌, sym, ◌∙◌, subst}
use flatpak_blackbox_tests.Base.Dict.{Dict, keys}
use flatpak_blackbox_tests.Json.Value.{Value, root, ok, >>=-eq-ok, ok_injective}
use flatpak_blackbox_tests.Schema.Index.{indexed, indexed_iff, members, IsKeyed}
use flatpak_blackbox_tests.Schema.Behaviors.{item_id, parse_inventory}
use flatpak_blackbox_tests.Schema.Groups.{items_at, parse_scenario_group}
use flatpak_blackbox_tests.Scenarios.{
  Suite, read_document, read_documents, extended, load_behaviors,
}

module _ (suite : Suite) where
  -- Of each scenario group in turn, the behaviors that its file has.
  pub data Gathered : List String → List Value → Type 0 where
    nil : Gathered [] []
    more :
        {path : String} {paths : List String} {raw : Value} {document : Dict Value}
        {own rest : List Value}
        → suite.load path ≡ ok raw
        → parse_scenario_group suite.name_of suite.is_identifier raw (root path) ≡ ok document
        → items_at document "behaviors" (root "scenario group") ≡ ok own
        → Gathered paths rest
        → Gathered (path ∷ paths) (own ++ rest)

  extended-Gathered :
      (paths : List String) (groups : List (Dict Value)) (before result : List Value)
      → read_documents suite paths ≡ ok groups
      → extended suite "behaviors" before groups ≡ ok result
      → (added : List Value) × Gathered paths added × (result ≡ before ++ added)
  unfolding extended read_documents read_document
  extended-Gathered [] groups before result r h =
      let none_left =
        subst (λ d. extended suite "behaviors" before d ≡ ok result) (sym (ok_injective r)) h in
      ([], nil, sym (ok_injective none_left) ∙ sym (append-nil before))
  extended-Gathered (path ∷ paths) groups before result r h =
      let (first, read, r₁) = >>=-eq-ok (read_document suite path) _ r in
      let (rest, others, r₂) = >>=-eq-ok (read_documents suite paths) _ r₁ in
      let (raw, loaded, parsed) = >>=-eq-ok (suite.load path) _ read in
      let some_left =
        subst (λ d. extended suite "behaviors" before d ≡ ok result) (sym (ok_injective r₂)) h in
      let (own, listed, h₁) =
        >>=-eq-ok (items_at first "behaviors" (root "scenario group")) _ some_left in
      let (added, gathered, same) = extended-Gathered paths rest (before ++ own) result others h₁ in
      (own ++ added, more loaded parsed listed gathered, same ∙ append_assoc before own added)

  -- The behaviors that are loaded are those of the inventory and behind them those of the scenario groups, in the
  -- order of their files, and they stand under identifiers that all differ.
  pub load_behaviors-distinct :
      (result : List Value)
      → load_behaviors suite ≡ ok result
      → (raw : Value) × (inventory : Dict Value) × (own added : List Value) × (known : Dict Value)
        × (suite.load suite.inventory ≡ ok raw)
        × (parse_inventory suite.is_identifier raw (root suite.inventory) ≡ ok inventory)
        × (items_at inventory "behaviors" (root suite.inventory) ≡ ok own)
        × Gathered suite.groups added
        × (result ≡ own ++ added)
        × (members item_id "behavior" known ≡ result)
        × IsKeyed item_id "behavior" known
        × (is_unique (keys known) ≡ true)
  unfolding load_behaviors
  load_behaviors-distinct result h =
      let (raw, loaded, h₁) = >>=-eq-ok (suite.load suite.inventory) _ h in
      let (inventory, parsed, h₂) =
        >>=-eq-ok (parse_inventory suite.is_identifier raw (root suite.inventory)) _ h₁ in
      let (own, listed, h₃) =
        >>=-eq-ok (items_at inventory "behaviors" (root suite.inventory)) _ h₂ in
      let (groups, read, h₄) = >>=-eq-ok (read_documents suite suite.groups) _ h₃ in
      let (whole, joined, h₅) = >>=-eq-ok (extended suite "behaviors" own groups) _ h₄ in
      let (known, i, h₆) = >>=-eq-ok (indexed item_id "behavior" whole) _ h₅ in
      let (added, gathered, same) = extended-Gathered suite.groups groups own whole read joined in
      let (members_are, keyed, unique) = (indexed_iff item_id "behavior" whole known).0 i in
      let returned_whole = ok_injective h₆ in
      (
        raw,
        inventory,
        own,
        added,
        known,
        loaded,
        parsed,
        listed,
        gathered,
        sym returned_whole ∙ same,
        members_are ∙ returned_whole,
        keyed,
        unique,
      )
