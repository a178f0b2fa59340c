-- ===== src/Scenarios/Kept.antt =====
-- A client that was added stays, under its own source.
use flatpak_blackbox_tests.Base.{
  String, true, not, ◌&&◌, Option, none, some, List, [], ◌∷◌, ◌==◌, ◌≡◌, ap, sym, ◌∙◌, subst,
  Bool-cases, inl, inr, eq_iff, if◌then◌else◌,
}
use flatpak_blackbox_tests.Base.Entries.{and_right}
use flatpak_blackbox_tests.Base.Dict.{Dict, lookup, lookup-insert}
use flatpak_blackbox_tests.Json.Value.{Value, root, ok, >>=-eq-ok, guard-then, ok_injective}
use flatpak_blackbox_tests.Json.Validate.{object_map}
use flatpak_blackbox_tests.Schema.Groups.{typed_text, is_client_entry, is_client_source}
use flatpak_blackbox_tests.Scenarios.{Suite, add_client, client_of, clients_of, is_other}

kept :
    (suite : Suite) (clients : Dict String) (entry k path p : String)
    → not (is_other suite (lookup entry clients) path) ≡ true
    → lookup k clients ≡ some p
    → (if entry == k then some path else lookup k clients) ≡ some p
kept suite clients entry k path p fits h = elim (Bool-cases (entry == k)) [
  | inr other ↦ rw other h
  | inl same ↦ elim (Bool-cases (p == path)) [
    | inl equal ↦ rw same (ap some (sym ((eq_iff p path).0 equal)))
    | inr differs ↦ absurd (cc (rw ((eq_iff entry k).0 same, h, differs) at fits))
  ]
]

module _ (suite : Suite) where
  pub add_client-keeps :
      (clients next : Dict String) (entry source k p : String)
      → add_client suite clients entry source ≡ ok next
      → lookup k clients ≡ some p
      → lookup k next ≡ some p
  unfolding add_client
  add_client-keeps clients next entry source k p e h =
      let path = suite.join source in
      let (_, h₁) = guard-then (is_client_entry entry) _ _ e in
      let (_, h₂) = guard-then (is_client_source suite.name_of source) _ _ h₁ in
      let (fits, h₃) =
        guard-then (suite.is_file path && not (is_other suite (lookup entry clients) path)) _ _
          h₂ in
      subst (λ d. lookup k d ≡ some p) (ok_injective h₃)
        (lookup-insert entry k path clients
          ∙ kept suite clients entry k path p (and_right (suite.is_file path) _ fits) h)

  pub client_of-keeps :
      (clients next : Dict String) (client : Option Value) (k p : String)
      → client_of suite clients client ≡ ok next
      → lookup k clients ≡ some p
      → lookup k next ≡ some p
  unfolding client_of
  client_of-keeps clients next none k p e h = subst (λ d. lookup k d ≡ some p) (ok_injective e) h
  client_of-keeps clients next (some value) k p e h =
      let (client, _, h₁) = >>=-eq-ok (object_map value (root "client")) _ e in
      let (entry, _, h₂) = >>=-eq-ok (typed_text client "entry" (root "client")) _ h₁ in
      let (source, _, h₃) = >>=-eq-ok (typed_text client "source" (root "client")) _ h₂ in
      add_client-keeps clients next entry source k p h₃ h

  pub clients_of-keeps :
      (clients out : Dict String) (documents : List (Dict Value)) (k p : String)
      → clients_of suite clients documents ≡ ok out
      → lookup k clients ≡ some p
      → lookup k out ≡ some p
  unfolding clients_of
  clients_of-keeps clients out [] k p e h = subst (λ d. lookup k d ≡ some p) (ok_injective e) h
  clients_of-keeps clients out (document ∷ rest) k p e h =
      let (next, first, h₁) = >>=-eq-ok (client_of suite clients (lookup "client" document)) _ e in
      clients_of-keeps next out rest k p h₁
        (client_of-keeps clients next (lookup "client" document) k p first h)
