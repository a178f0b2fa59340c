-- ===== src/Driver/Dispatch/Laws.antt =====
-- Invariants of all standard scenarios, those on remotes included.
use flatpak_blackbox_tests.Base.{
  String, Bool, true, false, Option, none, some, List, [], ◌∷◌, ◌==◌, if◌then◌else◌, ◌≡◌, refl,
}
use flatpak_blackbox_tests.Driver.{
  Reply, Repository, World, Outcome, returned, raised, Driver, Script, ◌>>=◌, and_then, set_version,
  set_failing,
}
use flatpak_blackbox_tests.Driver.Calls.{call, success, setup_success}
use flatpak_blackbox_tests.Driver.Remotes.{
  RemoteRow, row_of, rows_of, rows, expect_lookups, expect_remotes, ref_lookups, cleared_title,
  deleted_lookup, edited_remotes, removed_remotes, created_remotes, remote_configuration, create,
  create_all, remote_priority_order,
}
use flatpak_blackbox_tests.Driver.Scenario.{Fixture, standard_scenario}
use flatpak_blackbox_tests.Driver.Rules.{
  Holds, Keeps, Keeps-after, give_lem, raise_lem, rules, success_lem, after_remote_lem,
}
use flatpak_blackbox_tests.Driver.Dispatch.{scenario}

-- A script takes one predicate of the world to another.
pub data Takes {S : Type 0} (P Q : World S → Type 0) {A : Type 0} (m : Script S A) : Type 0 where
  takes : ((w : World S) → P w → Holds Q (m w)) → Takes P Q m

then_Holds :
    {S : Type 0} (P Q : World S → Type 0) {A B : Type 0} (r : Outcome A × World S)
    (next : A → Script S B)
    → Holds P r
    → ((a : A) (w : World S) → P w → Holds Q (next a w))
    → Holds Q (and_then r next)
then_Holds P Q (returned a, w) next h k = k a w h
then_Holds P Q (raised f, w) next h k = tt

module _ {S : Type 0} {P Q : World S → Type 0} where
  pub Takes-after :
      {A : Type 0} {m : Script S A} → Takes P Q m → (w : World S) → P w → Holds Q (m w)
  Takes-after (takes k) = k

  pub Keeps-then :
      {A B : Type 0} {m : Script S A} {next : A → Script S B}
      → Keeps P m
      → ((a : A) → Takes P Q (next a))
      → Takes P Q (m >>= next)
  unfolding ◌>>=◌
  Keeps-then {m = m} {next = next} h k =
      takes λ w p. then_Holds P Q (m w) next (Keeps-after h w p) λ a. Takes-after (k a)

  pub branch-Takes :
      {A : Type 0} (b : Bool) {m n : Script S A}
      → Takes P Q m
      → Takes P Q n
      → Takes P Q (if b then m else n)
  branch-Takes true h k = h
  branch-Takes false h k = k

module _ {S : Type 0} {P Q : World S → Type 0} where
  pub then-Keeps :
      {A B : Type 0} {m : Script S A} {next : A → Script S B}
      → Takes P Q m
      → ((a : A) → Keeps Q (next a))
      → Takes P Q (m >>= next)
  unfolding ◌>>=◌
  then-Keeps {m = m} {next = next} h k =
      takes λ w p. then_Holds Q Q (m w) next (Takes-after h w p) λ a. Keeps-after (k a)

-- What a first call establishes and each later one keeps holds at the end.
module _ {S : Type 0} {P Q : World S → Type 0} (fold : String → String)
    (exec : List String → Repository → S → Reply S) (d : Driver) (f : Fixture)
    (first_call : (operation : String) (arguments : List String)
      → (operation == "run") ≡ false
      → Takes P Q (call exec d operation arguments))
    (call_keeps : (operation : String) (arguments : List String)
      → Keeps Q (call exec d operation arguments))
    (first_version : (v : String) → Keeps P (set_version v))
    (version_keeps : (v : String) → Keeps Q (set_version v))
    (failing_keeps : (b : Bool) → Keeps Q (set_failing b)) where
  called :
      (operation : String) (arguments : List String) → Keeps Q (success exec d operation arguments)
  called operation arguments =
      success_lem fold exec d f call_keeps version_keeps failing_keeps operation arguments

  row_of_lem : (fields : List String) → Keeps Q (row_of exec d fields)
  unfolding row_of
  row_of_lem [] = raise_lem
  row_of_lem (a ∷ []) = raise_lem
  row_of_lem (a ∷ b ∷ []) = raise_lem
  row_of_lem (a ∷ b ∷ c ∷ []) = raise_lem
  row_of_lem (a ∷ b ∷ c ∷ e ∷ []) = give_lem
  row_of_lem (a ∷ b ∷ c ∷ e ∷ g ∷ rest) = raise_lem

  rows_of_lem : (lines : List String) → Keeps Q (rows_of exec d lines)
  unfolding rows_of
  rows_of_lem [] = give_lem
  rows_of_lem (line ∷ lines) = search (rules, row_of_lem, rows_of_lem lines) depth 12

  rows_lem :
      (operation : String) (arguments : List String) → Keeps Q (rows exec d operation arguments)
  unfolding rows
  rows_lem operation arguments = search (rules, called, rows_of_lem)

  lookups_lem : (rs : List RemoteRow) → Keeps Q (expect_lookups exec d rs)
  unfolding expect_lookups
  lookups_lem [] = give_lem
  lookups_lem (r ∷ rs) = search (rules, rows_lem, lookups_lem rs) depth 12

  expect_remotes_lem :
      (ordered : Bool) (rs : List RemoteRow) → Keeps Q (expect_remotes exec d ordered rs)
  unfolding expect_remotes
  expect_remotes_lem ordered rs = search (rules, rows_lem, lookups_lem) depth 12

  ref_lookups_lem : Keeps Q (ref_lookups exec d f)
  unfolding ref_lookups
  ref_lookups_lem = search (rules, called, call_keeps) depth 12

  cleared_title_lem : (url : String) → Keeps Q (cleared_title exec d url)
  unfolding cleared_title
  cleared_title_lem url = search (rules, called, expect_remotes_lem) depth 12

  deleted_lookup_lem : (url : String) → Keeps Q (deleted_lookup exec d url)
  unfolding deleted_lookup
  deleted_lookup_lem url = search (rules, call_keeps, expect_remotes_lem) depth 12

  edited_lem : (url : String) → Keeps Q (edited_remotes exec d url f)
  unfolding edited_remotes
  edited_lem url = search (rules, called, expect_remotes_lem, ref_lookups_lem) depth 30

  removed_lem : (url : String) → Keeps Q (removed_remotes exec d url)
  unfolding removed_remotes
  removed_lem url =
      search (rules, called, expect_remotes_lem, cleared_title_lem, deleted_lookup_lem) depth 20

  created_lem : (url : String) → Keeps Q (created_remotes exec d url)
  unfolding created_remotes
  created_lem url = search (rules, called, expect_remotes_lem) depth 20

  create_lem : (title : Option String) (r : RemoteRow) → Keeps Q (create exec d title r)
  unfolding create
  create_lem none r = raise_lem
  create_lem (some title) r = called "remote-create" (r.name ∷ r.url ∷ title ∷ r.priority ∷ [])

  create_all_lem : (rs : List RemoteRow) → Keeps Q (create_all exec d rs)
  unfolding create_all
  create_all_lem [] = give_lem
  create_all_lem (r ∷ rs) = search (rules, create_lem, create_all_lem rs) depth 12

  first_expect : (rs : List RemoteRow) → Takes P Q (expect_remotes exec d true rs)
  unfolding expect_remotes rows success
  first_expect rs =
      then-Keeps
        (then-Keeps (then-Keeps (first_call "remote-list" [] refl) λ result. search rules depth 8)
          λ output. rows_of_lem _)
        λ actual. search (rules, lookups_lem) depth 8

  first_setup : (url : String) → Takes P Q (setup_success exec d "remote" (url ∷ []))
  unfolding setup_success
  first_setup url = then-Keeps (first_call "remote" (url ∷ []) refl) λ result. search rules depth 8

  configuration-Takes : (url : String) → Takes P Q (remote_configuration exec d url f)
  unfolding remote_configuration
  configuration-Takes url = Keeps-then (first_version "A") λ u.
      then-Keeps (first_expect [])
        λ v. search (rules, created_lem, edited_lem, removed_lem) depth 12

  order-Takes : (url : String) → Takes P Q (remote_priority_order exec d url)
  unfolding remote_priority_order
  order-Takes url =
      then-Keeps (first_expect []) λ u. search (rules, create_all_lem, expect_remotes_lem) depth 12

  standard-Takes : (url name : String) → Takes P Q (standard_scenario fold exec d f url name)
  standard-Takes url name =
      unfold standard_scenario in
      then-Keeps (first_setup url)
        λ s. after_remote_lem fold exec d f call_keeps version_keeps failing_keeps name

  pub scenario-Takes : (url name : String) → Takes P Q (scenario fold exec d f url name)
  scenario-Takes url name =
      unfold scenario in
      branch-Takes (name == "remote-config") (configuration-Takes url)
        (branch-Takes (name == "remote-priority-order") (order-Takes url) (standard-Takes url name))
