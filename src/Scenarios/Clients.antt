-- ===== src/Scenarios/Clients.antt =====
-- The clients that `extension_clients` returns.
use flatpak_blackbox_tests.Base.{
  String, Bool, true, not, ◌&&◌, Option, none, some, List, [], ◌∷◌, ◌==◌, all, any, All, ◌≡◌, refl,
  ◌∙◌, subst, arith, Bool-cases, inl, inr, eq_refl, eq_iff, map,
}
use flatpak_blackbox_tests.Base.Order.{sorted_items}
use flatpak_blackbox_tests.Base.Entries.{
  and_left, and_right, and_both, all-insert, all-sorted_items, any-sorted_items,
}
use flatpak_blackbox_tests.Base.Dict.{Dict, lookup, lookup-insert}
use flatpak_blackbox_tests.Json.Value.{Value, root, ok, >>=-eq-ok, guard-then, ok_injective}
use flatpak_blackbox_tests.Json.Validate.{object_map}
use flatpak_blackbox_tests.Schema.Groups.{typed_text, is_client_entry, is_client_source}
use flatpak_blackbox_tests.Scenarios.{
  Suite, read_documents, add_client, client_of, clients_of, extension_clients, is_other,
}
use flatpak_blackbox_tests.Scenarios.Kept.{clients_of-keeps}

all-map-swap :
    (p : String × String → Bool) (d : Dict String)
    → all (λ e. p (e.1, e.0)) d ≡ true
    → all p (map (λ (e : String × String). (e.1, e.0)) d) ≡ true
all-map-swap p [] h = refl
all-map-swap p ((k, v) ∷ d) h =
    and_both (p (v, k)) _ (and_left (p (v, k)) _ h) (all-map-swap p d (and_right (p (v, k)) _ h))

abbrev pub is_pair : String → String → String × String → Bool
is_pair a b e = e.0 == a && e.1 == b

any-map-swap :
    (a b : String) (d : Dict String)
    → any (is_pair b a) d ≡ true
    → any (is_pair a b) (map (λ (e : String × String). (e.1, e.0)) d) ≡ true
any-map-swap a b [] h = h
any-map-swap a b ((k, v) ∷ d) h = let rest = any-map-swap a b d in ground (arith, rest, h)

lookup-any : (k v : String) (d : Dict String) → lookup k d ≡ some v → any (is_pair k v) d ≡ true
lookup-any k v [] h = absurd (cc h)
lookup-any k v ((j, w) ∷ d) h = elim (Bool-cases (j == k)) [
  | inl same ↦
      let found : some w ≡ some v = rw same at h in
      let is_same : (w == v) ≡ true = (eq_iff w v).1 (cc found) in rw (same, is_same) refl
  | inr other ↦ rw other (lookup-any k v d (rw other at h))
]

module _ (suite : Suite) where
  -- a client that can be built: its entry point has the form, and its source is there
  abbrev pub is_client : String × String → Bool
  is_client (entry, path) = is_client_entry entry && suite.is_file path

  add_client_lem :
      (clients next : Dict String) (entry source : String)
      → add_client suite clients entry source ≡ ok next
      → all is_client clients ≡ true
      → all is_client next ≡ true
  unfolding add_client
  add_client_lem clients next entry source e h =
      let path = suite.join source in
      let (formed, h₁) = guard-then (is_client_entry entry) _ _ e in
      let (_, h₂) = guard-then (is_client_source suite.name_of source) _ _ h₁ in
      let (there, h₃) =
        guard-then (suite.is_file path && not (is_other suite (lookup entry clients) path)) _ _
          h₂ in
      subst (λ d. all is_client d ≡ true) (ok_injective h₃)
        (all-insert is_client entry path clients
          (and_both (is_client_entry entry) (suite.is_file path) formed
            (and_left (suite.is_file path) _ there))
          h)

  client_of_lem :
      (clients next : Dict String) (client : Option Value)
      → client_of suite clients client ≡ ok next
      → all is_client clients ≡ true
      → all is_client next ≡ true
  unfolding client_of
  client_of_lem clients next none e h = subst (λ d. all is_client d ≡ true) (ok_injective e) h
  client_of_lem clients next (some value) e h =
      let (client, _, h₁) = >>=-eq-ok (object_map value (root "client")) _ e in
      let (entry, _, h₂) = >>=-eq-ok (typed_text client "entry" (root "client")) _ h₁ in
      let (source, _, h₃) = >>=-eq-ok (typed_text client "source" (root "client")) _ h₂ in
      add_client_lem clients next entry source h₃ h

  clients_of_lem :
      (clients out : Dict String) (documents : List (Dict Value))
      → clients_of suite clients documents ≡ ok out
      → all is_client clients ≡ true
      → all is_client out ≡ true
  unfolding clients_of
  clients_of_lem clients out [] e h = subst (λ d. all is_client d ≡ true) (ok_injective e) h
  clients_of_lem clients out (document ∷ rest) e h =
      let (next, first, h₁) = >>=-eq-ok (client_of suite clients (lookup "client" document)) _ e in
      clients_of_lem next out rest h₁
        (client_of_lem clients next (lookup "client" document) first h)

  -- The client of a document, where it has one, satisfies `P` with its entry point and its path.
  abbrev pub ClientOf : (String → String → Type 0) → Option Value → Type 0
  ClientOf P none = Unit
  ClientOf P (some value) =
      (client : Dict Value) × (entry source : String) × (object_map value (root "client")
        ≡ ok client)
      × (typed_text client "entry" (root "client") ≡ ok entry)
      × (typed_text client "source" (root "client") ≡ ok source)
      × P entry (suite.join source)

  client_of-ClientOf :
      (clients next : Dict String) (client : Option Value)
      → client_of suite clients client ≡ ok next
      → ClientOf (λ entry path. lookup entry next ≡ some path) client
  unfolding client_of add_client
  client_of-ClientOf clients next none e = tt
  client_of-ClientOf clients next (some value) e =
      let (client, read, h₁) = >>=-eq-ok (object_map value (root "client")) _ e in
      let (entry, named, h₂) = >>=-eq-ok (typed_text client "entry" (root "client")) _ h₁ in
      let (source, sourced, h₃) = >>=-eq-ok (typed_text client "source" (root "client")) _ h₂ in
      let path = suite.join source in
      let (_, h₄) = guard-then (is_client_entry entry) _ _ h₃ in
      let (_, h₅) = guard-then (is_client_source suite.name_of source) _ _ h₄ in
      let (_, h₆) =
        guard-then (suite.is_file path && not (is_other suite (lookup entry clients) path)) _ _
          h₅ in
      (
        client,
        entry,
        source,
        read,
        named,
        sourced,
        subst (λ d. lookup entry d ≡ some path) (ok_injective h₆)
            (lookup-insert entry entry path clients ∙ (rw (eq_refl entry) refl)),
      )

  ClientOf-map :
      (P Q : String → String → Type 0) (client : Option Value)
      → ((entry path : String) → P entry path → Q entry path)
      → ClientOf P client
      → ClientOf Q client
  ClientOf-map P Q none k c = tt
  ClientOf-map P Q (some value) k (client, entry, source, read, named, sourced, h) =
      (client, entry, source, read, named, sourced, k entry (suite.join source) h)

  All_map :
      (P Q : Dict Value → Type 0) (documents : List (Dict Value))
      → ((document : Dict Value) → P document → Q document)
      → All P documents
      → All Q documents
  All_map P Q [] k h = tt
  All_map P Q (document ∷ rest) k (h, others) = (k document h, All_map P Q rest k others)

  clients_of-ClientOf :
      (clients out : Dict String) (documents : List (Dict Value))
      → clients_of suite clients documents ≡ ok out
      → All
          (λ document.
            ClientOf (λ entry path. lookup entry out ≡ some path) (lookup "client" document))
          documents
  unfolding clients_of
  clients_of-ClientOf clients out [] e = tt
  clients_of-ClientOf clients out (document ∷ rest) e =
      let (next, first, h₁) = >>=-eq-ok (client_of suite clients (lookup "client" document)) _ e in
      (
        ClientOf-map _ _ (lookup "client" document)
            (λ entry path. clients_of-keeps suite next out rest entry path h₁)
            (client_of-ClientOf clients next (lookup "client" document) first),
        clients_of-ClientOf next out rest h₁,
      )

  -- Each client that is returned has an entry point of the required form and a source that is a file, and each scenario
  -- group with a client has its entry point returned with its own source.
  pub extension_clients_lem :
      (out : List (String × String))
      → extension_clients suite ≡ ok out
      → (groups : List (Dict Value)) × (read_documents suite suite.groups ≡ ok groups)
        × (all (λ e. is_client_entry e.1 && suite.is_file e.0) out ≡ true)
        × All
            (λ document.
              ClientOf
                (λ entry path. any (is_pair path entry) out ≡ true)
                (lookup "client" document))
            groups
  unfolding extension_clients
  extension_clients_lem out e =
      let (groups, read, h₁) = >>=-eq-ok (read_documents suite suite.groups) _ e in
      let (clients, joined, h₂) = >>=-eq-ok (clients_of suite [] groups) _ h₁ in
      subst
        (λ (d : List (String × String)).
          (groups : List (Dict Value)) × (read_documents suite suite.groups ≡ ok groups)
          × (all (λ e. is_client_entry e.1 && suite.is_file e.0) d ≡ true)
          × All
              (λ document.
                ClientOf (λ entry path. any (is_pair path entry) d ≡ true)
                  (lookup "client" document))
              groups)
        (ok_injective h₂)
        (
          groups,
          read,
          all-map-swap (λ e. is_client_entry e.1 && suite.is_file e.0) (sorted_items clients)
              (all-sorted_items is_client clients (clients_of_lem [] clients groups joined refl)),
          All_map _ _ groups
              (λ document. ClientOf-map _ _ (lookup "client" document) λ entry path found.
                any-map-swap path entry (sorted_items clients) (
                  any-sorted_items (is_pair entry path) clients
                  ∙ lookup-any entry path clients found))
              (clients_of-ClientOf [] clients groups joined),
        )
