-- ===== src/Driver/Scenario.antt =====
-- run.py: `assert_installed_version` and `scenario`, the standard scenarios.
use Prim.Native.String.{◌++◌ as ◌<>◌}
use flatpak_blackbox_tests.Base.{
  ℕ, zero, suc, String, Bool, true, false, not, ◌&&◌, some, List, [], ◌∷◌, ◌==◌, if◌then◌else◌, any,
  eqb, length, ends_with, starts_with, is_empty,
}
use flatpak_blackbox_tests.Base.Dict.{Dict, lookup}
use flatpak_blackbox_tests.Base.Words.{split_lines, has_text}
use flatpak_blackbox_tests.Runner.Failures.{other}
use flatpak_blackbox_tests.Driver.{
  Request, Completed, Reply, Repository, Driver, Script, ◌>>=◌, ◌>>◌, raise, require, set_version,
  set_failing, get_requests,
}
use flatpak_blackbox_tests.Driver.Calls.{call, success, setup_success, is_zero, is_positive}
use flatpak_blackbox_tests.Driver.Checks.{expect_error, query, entry_of, is_status}

-- the fields of the manifest that the standard scenarios read
pub record Fixture : Type 0 where
  pub app : String
  pub runtime : String
  pub arch : String
  pub branch : String
  pub commits : Dict String
  pub runtime_commit : String

abbrev pub ref_of : String → String → Fixture → String
ref_of kind name f = kind <> ("/" <> (name <> ("/" <> (f.arch <> ("/" <> f.branch)))))

abbrev pub app_ref : Fixture → String
app_ref f = ref_of "app" f.app f

abbrev pub missing_ref : Fixture → String
missing_ref f = ref_of "app" (f.app <> ".Missing") f

abbrev pub runtime_ref : Fixture → String
runtime_ref f = ref_of "runtime" f.runtime f

-- `lines.count(line)`
abbrev pub count_lines : String → List String → ℕ
count_lines line [] = 0
count_lines line (l ∷ ls) = let rest = count_lines line ls in if l == line then suc rest else rest

-- `xs[n:]`
abbrev pub drop_requests : ℕ → List Request → List Request
drop_requests zero rs = rs
drop_requests (suc n) [] = []
drop_requests (suc n) (r ∷ rs) = drop_requests n rs

-- a request for a payload of the new version that was answered
abbrev pub is_restored : Request → Bool
is_restored r = r.version == "B" && (ends_with r.path ".filez" && not r.blocked)

module _ {S : Type 0} (fold : String → String) (exec : List String → Repository → S → Reply S)
    (d : Driver) (f : Fixture) where
  -- The messages for people, the last argument in the source, are left out here and below.
  unfoldable pub assert_installed_version : String → Script S (Unit {0})
  assert_installed_version version = do
    commit ← entry_of (lookup version f.commits)
    actual ← query fold exec d (app_ref f) (some commit)
    runtime ← query fold exec d (runtime_ref f) (some f.runtime_commit)
    output ← success exec d "run" (app_ref f ∷ [])
    require (output == version)

  unfoldable pub ready_abort : Script S (Unit {0})
  ready_abort = do
    aborted ← call exec d "install-abort-ready" (app_ref f ∷ [])
    require (is_positive aborted.returncode)
    require (eqb (count_lines "signal ready" (split_lines aborted.stderr)) 1)
    require
        (not (any (λ line. starts_with line "signal new-operation") (split_lines aborted.stderr)))
    refs ← success exec d "list-refs" ("" ∷ [])
    require (is_empty refs)
    accepted ← call exec d "install" (app_ref f ∷ [])
    require (is_zero accepted.returncode)
    require (eqb (count_lines "signal ready" (split_lines accepted.stderr)) 1)
    assert_installed_version "A"

  unfoldable pub missing_install : Script S (Unit {0})
  missing_install = do
    expect_error fold exec d "install" (missing_ref f) "REF_NOT_FOUND"
    refs ← success exec d "list-refs" ("" ∷ [])
    require (is_empty refs)

  unfoldable pub absent_ref : Script S (Unit {0})
  absent_ref = do
    expect_error fold exec d "query" (missing_ref f) "NOT_INSTALLED"
    assert_installed_version "A"
    expect_error fold exec d "uninstall" (missing_ref f) "NOT_INSTALLED"
    assert_installed_version "A"

  unfoldable pub noop_update : Script S (Unit {0})
  noop_update = do output ← success exec d "update" (app_ref f ∷ []); assert_installed_version "A"

  abbrev pub repeated_cli : Script S (Unit {0})
  repeated_cli = do
    repeated ← call exec d "install" (app_ref f ∷ [])
    require (is_zero repeated.returncode)
    require (has_text "already installed" (fold (repeated.stdout <> repeated.stderr)))

  unfoldable pub repeated_install : Script S (Unit {0})
  repeated_install = do
    set_version "B"
    if d.kind == "library"
        then expect_error fold exec d "install" (app_ref f) "ALREADY_INSTALLED"
        else repeated_cli
    assert_installed_version "A"

  unfoldable pub failing_update : Script S (Unit {0})
  failing_update = do
    set_version "B"
    set_failing true
    result ← call exec d "update" (app_ref f ∷ [])
    require (is_positive result.returncode)
    requests ← get_requests
    require (any (λ r. r.blocked) requests)
    assert_installed_version "A"

  unfoldable pub retry : Script S (Unit {0})
  retry = do
    set_failing false
    before ← get_requests
    output ← success exec d "update" (app_ref f ∷ [])
    after ← get_requests
    require (any is_restored (drop_requests (length before) after))
    assert_installed_version "B"

  abbrev pub check_absent : Completed → Script S (Unit {0})
  check_absent absent = if d.kind == "library" then require (is_status 3 absent.returncode) else do
    require (is_positive absent.returncode)
    apps ← success exec d "list-apps" ("" ∷ [])
    require (is_empty apps)

  unfoldable pub updated : Script S (Unit {0})
  updated = do
    set_version "B"
    set_failing false
    output ← success exec d "update" (app_ref f ∷ [])
    assert_installed_version "B"

  unfoldable pub uninstalled : Script S (Unit {0})
  uninstalled = do
    gone ← success exec d "uninstall" (app_ref f ∷ [])
    runtime ← query fold exec d (runtime_ref f) (some f.runtime_commit)
    absent ← call exec d "query" (app_ref f ∷ [])
    check_absent absent

  -- the scenarios that begin with an installed app
  unfoldable pub installed_scenario : String → Script S (Unit {0})
  unfolding absent_ref noop_update repeated_install failing_update retry updated uninstalled
  installed_scenario name =
      if name == "absent-ref"
      then absent_ref
      else if name == "noop-update"
      then noop_update
      else if name == "repeated-install"
      then repeated_install
      else if name == "lifecycle"
      then updated >> uninstalled
      else if name == "failed-update"
      then failing_update
      else if name == "retry-update"
      then failing_update >> retry
      else raise other

  unfoldable pub installing : String → Script S (Unit {0})
  unfolding installed_scenario
  installing name = do
    installed ← setup_success exec d "install" (app_ref f ∷ [])
    assert_installed_version "A"
    installed_scenario name

  -- what follows the setup of the remote
  unfoldable pub after_remote : String → Script S (Unit {0})
  unfolding ready_abort missing_install installing
  after_remote name =
      if name == "ready-abort"
      then ready_abort
      else if name == "missing-install"
      then missing_install
      else installing name

  unfoldable pub standard_scenario : String → String → Script S (Unit {0})
  unfolding after_remote
  standard_scenario url name = do
    added ← setup_success exec d "remote" (url ∷ [])
    after_remote name
