-- ===== src/Driver/Promise.antt =====
-- What the standard scenarios expect of a Flatpak: an installation in the abstract, and a record of
-- the documented behaviour of the commands, over the driver's command lines.
pub mod Returns
pub mod Requests
pub mod Steps
pub mod Installs
pub mod Updates
pub mod Passes
use flatpak_blackbox_tests.Base.{
  ℕ, String, Bool, true, false, ◌&&◌, Option, none, some, List, [], ◌∷◌, ◌==◌, any, ends_with,
  is_empty, if◌then◌else◌, ◌≡◌, ◌⊎◌,
}
use flatpak_blackbox_tests.Base.Dict.{lookup}
use flatpak_blackbox_tests.Base.Words.{strip, split_words, has_text}
use Prim.Native.String.{◌++◌ as ◌<>◌}
use flatpak_blackbox_tests.Driver.Commands.{argv_of}
use flatpak_blackbox_tests.Driver.{
  Completed, Ran, exited, Reply, Repository, Outcome, returned, Driver,
}
use flatpak_blackbox_tests.Driver.Calls.{is_zero, is_positive}
use flatpak_blackbox_tests.Driver.Checks.{statuses, diagnostics, is_status, ref_name}
use flatpak_blackbox_tests.Driver.Scenario.{Fixture, app_ref, missing_ref, runtime_ref}

-- whether the remote `fixture` is configured, and what is installed from it: a version of the app, and the runtime
pub record Installation : Type 0 where
  pub remote : Bool
  pub app : Option String
  pub runtime : Bool

abbrev pub IsRelease : String → Type 0
IsRelease v = (v ≡ "A") ⊎ (v ≡ "B")

-- The driver has a command line for the operation, and the command exits as `Post` says.
pub record Answered {S : Type 0} (exec : List String → Repository → S → Reply S) (d : Driver)
    (operation : String) (arguments : List String) (r : Repository) (s : S)
    (Post : Completed → List String → S → Type 0) : Type 0 where
  pub argv : List String
  pub line : argv_of d operation arguments ≡ returned argv
  pub completed : Completed
  pub exits : (exec argv r s).ran ≡ exited completed
  pub holds : Post completed (exec argv r s).paths (exec argv r s).after

-- How a driver of a kind learns of an error: the library's client has a status for it, the command line a text.
pub data IsReported (fold : String → String) (kind ref error_name : String) (c : Completed)
    : Type 0 where
  by_status :
      (n : ℕ)
      → (kind == "library") ≡ true
      → lookup error_name statuses ≡ some n
      → is_status n c.returncode ≡ true
      → IsReported fold kind ref error_name c
  by_text :
      (name : String) (texts : List String)
      → (kind == "library") ≡ false
      → is_positive c.returncode ≡ true
      → ref_name ref ≡ some name
      → has_text name c.stderr ≡ true
      → lookup error_name diagnostics ≡ some texts
      → any (λ t. has_text t (fold c.stderr)) texts ≡ true
      → IsReported fold kind ref error_name c

-- what the library says, or what the command line says, of a ref that is not installed
abbrev pub shows_absent : String → Completed → Bool
shows_absent kind c =
    if kind == "library" then is_status 3 c.returncode else is_positive c.returncode

abbrev pub is_done : Completed → Bool
is_done c = is_zero c.returncode

abbrev pub words_of : Completed → List String
words_of c = split_words (strip c.stdout)

-- The behaviour of Flatpak that the scenarios test: a view of the target's state as an installation, and what each
-- command does to it. The remote can be added once; what downloads needs it, and a release that the repository serves.
pub record Flatpak {S : Type 0} (fold : String → String)
    (exec : List String → Repository → S → Reply S) (d : Driver) (f : Fixture)
    (view : S → Installation) : Type 0 where
  pub remote :
      (url : String) (r : Repository) (s : S)
      → (view s).remote ≡ false
      → Answered exec d "remote"
          (url ∷ [])
          r
          s
          (λ c paths s'. (is_done c ≡ true) × (view s' ≡ record (view s) { remote = true }))
  pub install :
      (r : Repository) (s : S)
      → (view s).remote ≡ true
      → (view s).app ≡ none
      → IsRelease r.version
      → r.fail_payloads ≡ false
      → Answered exec d "install" (app_ref f ∷ []) r s (λ c paths s'.
        (is_done c ≡ true) × (view s' ≡ record (view s) { app = some r.version; runtime = true }))
  -- A plain install of what is installed is not an update.
  pub reinstall_library :
      (v : String) (r : Repository) (s : S)
      → (view s).remote ≡ true
      → (view s).app ≡ some v
      → (d.kind == "library") ≡ true
      → Answered exec d "install" (app_ref f ∷ []) r s (λ c paths s'.
        IsReported fold d.kind (app_ref f) "ALREADY_INSTALLED" c × (view s' ≡ view s))
  pub reinstall_cli :
      (v : String) (r : Repository) (s : S)
      → (view s).remote ≡ true
      → (view s).app ≡ some v
      → (d.kind == "library") ≡ false
      → Answered exec d "install" (app_ref f ∷ []) r s (λ c paths s'.
        ((is_done c ≡ true) × (has_text "already installed" (fold (c.stdout <> c.stderr)) ≡ true))
        × (view s' ≡ view s))
  pub install_missing :
      (r : Repository) (s : S)
      → (view s).remote ≡ true
      → Answered exec d "install" (missing_ref f ∷ []) r s (λ c paths s'.
        IsReported fold d.kind (missing_ref f) "REF_NOT_FOUND" c × (view s' ≡ view s))
  pub query_missing :
      (r : Repository) (s : S)
      → Answered exec d "query" (missing_ref f ∷ []) r s (λ c paths s'.
        IsReported fold d.kind (missing_ref f) "NOT_INSTALLED" c × (view s' ≡ view s))
  pub uninstall_missing :
      (r : Repository) (s : S)
      → Answered exec d "uninstall" (missing_ref f ∷ []) r s (λ c paths s'.
        IsReported fold d.kind (missing_ref f) "NOT_INSTALLED" c × (view s' ≡ view s))
  -- An update that has something to download asks the repository for it.
  pub update :
      (v : String) (r : Repository) (s : S)
      → (view s).remote ≡ true
      → (view s).app ≡ some v
      → IsRelease r.version
      → r.fail_payloads ≡ false
      → Answered exec d "update" (app_ref f ∷ []) r s (λ c paths s'.
        ((is_done c ≡ true)
          × ((v == r.version) ≡ false → any (λ p. ends_with p ".filez") paths ≡ true))
        × (view s' ≡ record (view s) { app = some r.version }))
  pub update_failing :
      (v : String) (r : Repository) (s : S)
      → (view s).remote ≡ true
      → (view s).app ≡ some v
      → IsRelease r.version
      → (v == r.version) ≡ false
      → r.fail_payloads ≡ true
      → Answered exec d "update" (app_ref f ∷ []) r s (λ c paths s'.
        ((is_positive c.returncode ≡ true) × (any (λ p. ends_with p ".filez") paths ≡ true))
        × (view s' ≡ view s))
  pub uninstall :
      (v : String) (r : Repository) (s : S)
      → (view s).app ≡ some v
      → Answered exec d "uninstall"
          (app_ref f ∷ [])
          r
          s
          (λ c paths s'. (is_done c ≡ true) × (view s' ≡ record (view s) { app = none }))
  pub query_app :
      (v commit : String) (r : Repository) (s : S)
      → IsRelease v
      → (view s).app ≡ some v
      → lookup v f.commits ≡ some commit
      → Answered exec d "query" (app_ref f ∷ []) r s (λ c paths s'.
        ((is_done c ≡ true) × (words_of c ≡ app_ref f ∷ commit ∷ [])) × (view s' ≡ view s))
  pub query_absent :
      (r : Repository) (s : S)
      → (view s).app ≡ none
      → Answered exec d "query"
          (app_ref f ∷ [])
          r
          s
          (λ c paths s'. (shows_absent d.kind c ≡ true) × (view s' ≡ view s))
  pub query_runtime :
      (r : Repository) (s : S)
      → (view s).runtime ≡ true
      → Answered exec d "query" (runtime_ref f ∷ []) r s (λ c paths s'.
        ((is_done c ≡ true) × (words_of c ≡ runtime_ref f ∷ f.runtime_commit ∷ []))
        × (view s' ≡ view s))
  pub run :
      (v : String) (r : Repository) (s : S)
      → IsRelease v
      → (view s).app ≡ some v
      → Answered exec d "run"
          (app_ref f ∷ [])
          r
          s
          (λ c paths s'. ((is_done c ≡ true) × (strip c.stdout ≡ v)) × (view s' ≡ view s))
  pub list_refs :
      (r : Repository) (s : S)
      → (view s).app ≡ none
      → (view s).runtime ≡ false
      → Answered exec d "list-refs" ("" ∷ []) r s (λ c paths s'.
        ((is_done c ≡ true) × (is_empty (strip c.stdout) ≡ true)) × (view s' ≡ view s))
  pub list_apps :
      (r : Repository) (s : S)
      → (view s).app ≡ none
      → (d.kind == "library") ≡ false
      → Answered exec d "list-apps" ("" ∷ []) r s (λ c paths s'.
        ((is_done c ≡ true) × (is_empty (strip c.stdout) ≡ true)) × (view s' ≡ view s))
