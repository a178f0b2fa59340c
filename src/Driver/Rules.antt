-- ===== src/Driver/Rules.antt =====
-- Invariants of scripts: what holds of the world before a script holds of it after a return.
use flatpak_blackbox_tests.Base.{
  String, Bool, true, false, Option, none, some, List, [], ◌∷◌, ◌==◌, if◌then◌else◌,
}
use flatpak_blackbox_tests.Runner.Failures.{Failure}
use flatpak_blackbox_tests.Driver.{
  Completed, Reply, Repository, World, Outcome, returned, raised, Driver, Script, ◌>>=◌, and_then,
  give, raise, require, set_version, set_failing, get_requests,
}
use flatpak_blackbox_tests.Driver.Calls.{call, success, setup_success}
use flatpak_blackbox_tests.Driver.Checks.{
  entry_of, item_of, expect_library_error, expect_cli_error, expect_error, two_words, query,
}
use flatpak_blackbox_tests.Driver.Scenario.{
  Fixture, app_ref, assert_installed_version, ready_abort, missing_install, absent_ref, noop_update,
  repeated_install, failing_update, retry, updated, uninstalled, installed_scenario, installing,
  after_remote, standard_scenario,
}

module _ {S : Type 0} where
  abbrev pub Holds : {A : Type 0} → (World S → Type 0) → Outcome A × World S → Type 0
  Holds P (returned a, w) = P w
  Holds P (raised f, w) = Unit

  pub data Keeps (P : World S → Type 0) {A : Type 0} (m : Script S A) : Type 0 where
    keeps : ((w : World S) → P w → Holds P (m w)) → Keeps P m

module _ {S : Type 0} {P : World S → Type 0} where
  pub Keeps-after : {A : Type 0} {m : Script S A} → Keeps P m → (w : World S) → P w → Holds P (m w)
  Keeps-after (keeps k) = k

  after_Holds :
      {A B : Type 0} (r : Outcome A × World S) (next : A → Script S B)
      → Holds P r
      → ((a : A) → Keeps P (next a))
      → Holds P (and_then r next)
  after_Holds (returned a, w) next h k = Keeps-after (k a) w h
  after_Holds (raised f, w) next h k = tt

  pub bind :
      {A B : Type 0} {m : Script S A} {next : A → Script S B}
      → Keeps P m
      → ((a : A) → Keeps P (next a))
      → Keeps P (m >>= next)
  unfolding ◌>>=◌
  bind {m = m} {next = next} h k = keeps λ w p. after_Holds (m w) next (Keeps-after h w p) k

  pub give_lem : {A : Type 0} {a : A} → Keeps P (give a)
  give_lem = keeps λ w p. p

  pub raise_lem : {A : Type 0} {f : Failure} → Keeps P {A = A} (raise f)
  raise_lem = keeps λ w p. tt

  pub branch :
      {A : Type 0} (b : Bool) {m n : Script S A}
      → Keeps P m
      → Keeps P n
      → Keeps P (if b then m else n)
  branch true h k = h
  branch false h k = k

  pub require_lem : (b : Bool) → Keeps P (require b)
  unfolding require
  require_lem true = give_lem
  require_lem false = raise_lem

  pub entry_lem : {A : Type 0} (o : Option A) → Keeps P (entry_of o)
  unfolding entry_of
  entry_lem none = raise_lem
  entry_lem (some a) = give_lem

  pub item_lem : {A : Type 0} (o : Option A) → Keeps P (item_of o)
  unfolding item_of
  item_lem none = raise_lem
  item_lem (some a) = give_lem

  pub requests_lem : Keeps P get_requests
  requests_lem = keeps λ w p. p

pub ruleset rules =
    (bind, give_lem, raise_lem, branch, require_lem, entry_lem, item_lem, requests_lem)

-- A scenario keeps what every call and every change of the repository keeps.
module _ {S : Type 0} {P : World S → Type 0} (fold : String → String)
    (exec : List String → Repository → S → Reply S) (d : Driver) (f : Fixture)
    (call_keeps : (operation : String) (arguments : List String)
      → Keeps P (call exec d operation arguments))
    (version_keeps : (v : String) → Keeps P (set_version v))
    (failing_keeps : (b : Bool) → Keeps P (set_failing b)) where
  pub success_lem :
      (operation : String) (arguments : List String) → Keeps P (success exec d operation arguments)
  unfolding success
  success_lem operation arguments = search (rules, call_keeps)

  setup_success_lem :
      (operation : String) (arguments : List String)
      → Keeps P (setup_success exec d operation arguments)
  unfolding setup_success
  setup_success_lem operation arguments = search (rules, call_keeps)

  library_error_lem :
      (error_name : String) (c : Completed)
      → Keeps P (expect_library_error fold exec d error_name c)
  unfolding expect_library_error
  library_error_lem error_name c = search rules

  cli_error_lem :
      (ref error_name : String) (c : Completed)
      → Keeps P (expect_cli_error fold exec d ref error_name c)
  unfolding expect_cli_error
  cli_error_lem ref error_name c = search rules depth 12

  expect_error_lem :
      (operation ref error_name : String)
      → Keeps P (expect_error fold exec d operation ref error_name)
  unfolding expect_error
  expect_error_lem operation ref error_name = bind (call_keeps operation (ref ∷ [])) λ c.
      branch (d.kind == "library") (library_error_lem error_name c) (cli_error_lem ref error_name c)

  two_words_lem : (ws : List String) → Keeps P (two_words fold exec d ws)
  unfolding two_words
  two_words_lem (a ∷ b ∷ []) = give_lem
  two_words_lem [] = raise_lem
  two_words_lem (a ∷ []) = raise_lem
  two_words_lem (a ∷ b ∷ c ∷ ws) = raise_lem

  query_lem : (ref : String) (commit : Option String) → Keeps P (query fold exec d ref commit)
  unfolding query
  query_lem ref commit = search (rules, success_lem, two_words_lem) depth 12

  ruleset calls = (
    bind, give_lem, raise_lem, branch, require_lem, entry_lem, item_lem, requests_lem, success_lem,
    setup_success_lem, expect_error_lem, query_lem,
  )

  installed_lem : (version : String) → Keeps P (assert_installed_version fold exec d f version)
  unfolding assert_installed_version
  installed_lem version = search (calls, call_keeps) depth 16

  ready_abort_lem : Keeps P (ready_abort fold exec d f)
  unfolding ready_abort
  ready_abort_lem = search (calls, call_keeps, installed_lem) depth 30

  missing_install_lem : Keeps P (missing_install fold exec d f)
  unfolding missing_install
  missing_install_lem = search (calls, call_keeps) depth 12

  absent_ref_lem : Keeps P (absent_ref fold exec d f)
  unfolding absent_ref
  absent_ref_lem = search (calls, call_keeps, installed_lem) depth 12

  noop_update_lem : Keeps P (noop_update fold exec d f)
  unfolding noop_update
  noop_update_lem = search (calls, call_keeps, installed_lem) depth 12

  repeated_install_lem : Keeps P (repeated_install fold exec d f)
  unfolding repeated_install
  repeated_install_lem = search (calls, call_keeps, version_keeps, installed_lem) depth 20

  failing_update_lem : Keeps P (failing_update fold exec d f)
  unfolding failing_update
  failing_update_lem =
      search (calls, call_keeps, version_keeps, failing_keeps, installed_lem) depth 20

  retry_lem : Keeps P (retry fold exec d f)
  unfolding retry
  retry_lem = search (calls, call_keeps, failing_keeps, installed_lem) depth 20

  updated_lem : Keeps P (updated fold exec d f)
  unfolding updated
  updated_lem = search (calls, call_keeps, version_keeps, failing_keeps, installed_lem) depth 20

  uninstalled_lem : Keeps P (uninstalled fold exec d f)
  unfolding uninstalled
  uninstalled_lem = search (calls, call_keeps) depth 20

  ruleset parts = (
    absent_ref_lem, noop_update_lem, repeated_install_lem, failing_update_lem, retry_lem,
    updated_lem, uninstalled_lem,
  )

  installed_scenario_lem : (name : String) → Keeps P (installed_scenario fold exec d f name)
  installed_scenario_lem name =
      unfold installed_scenario in (search (branch, bind, raise_lem, parts) depth 20)

  installing_lem : (name : String) → Keeps P (installing fold exec d f name)
  installing_lem name =
      unfold installing in
      bind (setup_success_lem "install" (app_ref f ∷ []))
        λ s. bind (installed_lem "A") λ u. installed_scenario_lem name

  pub after_remote_lem : (name : String) → Keeps P (after_remote fold exec d f name)
  after_remote_lem name =
      unfold after_remote in
      branch (name == "ready-abort") ready_abort_lem
        (branch (name == "missing-install") missing_install_lem (installing_lem name))

  pub scenario_lem : (url name : String) → Keeps P (standard_scenario fold exec d f url name)
  scenario_lem url name =
      unfold standard_scenario in
      bind (setup_success_lem "remote" (url ∷ [])) λ s. after_remote_lem name
