-- ===== src/Examples/Driver.antt =====
-- A Flatpak in small, and the standard scenarios of the command line against it.
use Prim.Native.String.{◌++◌ as ◌<>◌}
use flatpak_blackbox_tests.Base.{
  String, Bool, true, false, Option, none, some, List, [], ◌∷◌, ◌==◌, if◌then◌else◌, any, ends_with,
  ◌≡◌, refl, sym, ap, inl, subst,
}
use flatpak_blackbox_tests.Base.Int.{pos}
use flatpak_blackbox_tests.Base.Words.{strip, split_words, split_lines}
use flatpak_blackbox_tests.Driver.Checks.{entry_of, query}
use flatpak_blackbox_tests.Driver.Commands.{argv_of, interface_of}
use flatpak_blackbox_tests.Driver.{
  ◌>>=◌, Completed, Ran, not_found, timed_out, exited, Reply, Repository, World, returned, Driver,
}
use flatpak_blackbox_tests.Coverage.Records.{CaseIdentity}
use flatpak_blackbox_tests.Coverage.Subject.{case_problem, commands_problem}
use flatpak_blackbox_tests.Driver.Attribution.{case_of, scenario-case_problem}
use flatpak_blackbox_tests.Driver.Evidence.{IsLegible}
use flatpak_blackbox_tests.Driver.Calls.{setup_success, call, success}
use flatpak_blackbox_tests.Base.Sort.{sorted}
use flatpak_blackbox_tests.Driver.Text.{marked_lines}
use flatpak_blackbox_tests.Driver.Scenario.{assert_installed_version, Fixture, app_ref, runtime_ref}
use flatpak_blackbox_tests.Driver.Dispatch.{scenario}
use flatpak_blackbox_tests.Driver.Promise.{Installation, Answered, is_done}
use flatpak_blackbox_tests.Driver.Promise.Returns.{Returns}
use flatpak_blackbox_tests.Driver.Promise.Installs.{empty, serving}

abbrev fold : String → String
fold s = s

abbrev fixture : Fixture
fixture = record {
  app = "org.example.App";
  runtime = "org.example.Runtime";
  arch = "x86_64";
  branch = "stable";
  commits = ("A", "aaa") ∷ ("B", "bbb") ∷ [];
  runtime_commit = "ccc";
}

abbrev cli : Driver
cli = record { kind = "cli"; cli = "flatpak"; client = none }

abbrev prints : String → Completed
prints s = record { returncode = pos 0; stdout = s; stderr = "" }

abbrev fails : String → Completed
fails s = record { returncode = pos 1; stdout = ""; stderr = s }

abbrev reply : Completed → List String → Installation → Reply Installation
reply c paths s = record { ran = exited c; paths = paths; after = s }

abbrev last : String → List String → String
last s [] = s
last s (t ∷ ts) = last t ts

abbrev not_there : Installation → Reply Installation
not_there s = reply (fails "org.example.App.Missing not found, not installed") [] s

abbrev add_remote : Bool → Installation → Reply Installation
add_remote true s = reply (fails "fixture exists") [] s
add_remote false s = reply (prints "") [] (record s { remote = true })

abbrev fetch_app : Bool → Repository → Installation → Reply Installation
fetch_app true r s = reply (fails "download failed") ("objects/00.filez" ∷ []) s
fetch_app false r s =
    reply (prints "") ("objects/00.filez" ∷ []) (record s { app = some r.version; runtime = true })

abbrev install_app : Option String → Repository → Installation → Reply Installation
install_app none r s = fetch_app r.fail_payloads r s
install_app (some v) r s = reply (prints "already installed") [] s

abbrev download : Bool → Repository → Installation → Reply Installation
download true r s = reply (fails "download failed") ("objects/01.filez" ∷ []) s
download false r s = reply (prints "") ("objects/01.filez" ∷ []) (record s { app = some r.version })

abbrev update_app : Option String → Repository → Installation → Reply Installation
update_app none r s = not_there s
update_app (some v) r s =
    if v == r.version
    then reply (prints "") [] (record s { app = some r.version })
    else download r.fail_payloads r s

abbrev show_app : Option String → Installation → Reply Installation
show_app none s = reply (fails "org.example.App not installed") [] s
show_app (some v) s =
    reply (prints (app_ref fixture <> (" " <> (if v == "A" then "aaa" else "bbb")))) [] s

abbrev show : String → Installation → Reply Installation
show ref s =
    if ref == app_ref fixture
    then show_app s.app s
    else if ref == runtime_ref fixture
    then reply (prints (runtime_ref fixture <> " ccc")) [] s
    else not_there s

abbrev run_app : Option String → Installation → Reply Installation
run_app none s = not_there s
run_app (some v) s = reply (prints v) [] s

abbrev listing : Option String → Installation → Reply Installation
listing none s = reply (prints "") [] s
listing (some v) s = reply (prints (app_ref fixture)) [] s

abbrev with_remote : Bool → Installation → Reply Installation → Reply Installation
with_remote true s reached = reached
with_remote false s reached = reply (fails "no remote fixture") [] s

abbrev command : String → String → Repository → Installation → Reply Installation
command name ref r s =
    if name == "remote-add"
    then add_remote s.remote s
    else if name == "install"
    then with_remote s.remote s
        (if ref == app_ref fixture then install_app s.app r s else not_there s)
    else if name == "update"
    then with_remote s.remote s (update_app s.app r s)
    else if name == "uninstall"
    then (if ref == app_ref fixture
        then reply (prints "") [] (record s { app = none })
        else not_there s)
    else if name == "info"
    then show ref s
    else if name == "run"
    then run_app s.app s
    else listing s.app s

abbrev small : List String → Repository → Installation → Reply Installation
small (program ∷ name ∷ arguments) r s = command name (last "" arguments) r s
small argv r s = not_there s

answered :
    {operation : String} {arguments : List String} {r : Repository} {s : Installation}
    {Post : Completed → List String → Installation → Type 0} (argv : List String) (c : Completed)
    (paths : List String) (s' : Installation)
    → argv_of cli operation arguments ≡ returned argv
    → small argv r s ≡ reply c paths s'
    → Post c paths s'
    → Answered small cli operation arguments r s Post
answered {Post = Post} argv c paths s' line e h = record {
  argv = argv;
  line = line;
  completed = c;
  exits = ap (λ (x : Reply Installation). x.ran) e;
  holds = subst (λ (x : Reply Installation). Post c x.paths x.after) (sym e) h;
}

updated :
    (v : String) (r : Repository) (s : Installation) (b : Bool)
    → s.remote ≡ true
    → s.app ≡ some v
    → r.fail_payloads ≡ false
    → (v == r.version) ≡ b
    → Answered small cli "update" (app_ref fixture ∷ []) r s (λ c paths s'.
      ((is_done c ≡ true)
        × ((v == r.version) ≡ false → any (λ p. ends_with p ".filez") paths ≡ true))
      × (s' ≡ record s { app = some r.version }))
unfolding argv_of
updated v r s true there e served same =
    answered ("flatpak" ∷ "update" ∷ "--user" ∷ "--noninteractive" ∷ app_ref fixture ∷ [])
      (prints "") [] (record s { app = some r.version }) refl (rw (there, e, same) refl)
      ((refl, λ fresh. absurd (cc (same, fresh))), refl)
updated v r s false there e served same =
    answered ("flatpak" ∷ "update" ∷ "--user" ∷ "--noninteractive" ∷ app_ref fixture ∷ [])
      (prints "") ("objects/01.filez" ∷ []) (record s { app = some r.version }) refl
      (rw (there, e, same, served) refl) ((refl, λ fresh. refl), refl)

abbrev start : World Installation
start = record { target = empty; repository = serving "A" false; requests = []; evidence = [] }

-- without diagnostics
abbrev silent : Ran → Ran
silent (exited c) = exited (record c { stderr = "" })
silent ran = ran

abbrev quiet : List String → Repository → Installation → Reply Installation
quiet argv r s =
    let x = small argv r s in record { ran = silent x.ran; paths = x.paths; after = x.after }

silent-IsLegible : (ran : Ran) (c : Completed) → silent ran ≡ exited c → IsLegible c
unfolding marked_lines split_lines sorted
silent-IsLegible not_found c e = absurd (cc e)
silent-IsLegible (timed_out b) c e = absurd (cc e)
silent-IsLegible (exited b) c e =
    subst IsLegible {x = record b { stderr = "" }} {y = c} (cc e) (refl, refl)

abbrev over : World Installation
over = (scenario fold quiet cli fixture "http://localhost" "lifecycle" start).1

returned_over :
    scenario fold quiet cli fixture "http://localhost" "lifecycle" start ≡ (returned tt, over)
unfolding scenario ◌>>=◌ setup_success call argv_of interface_of assert_installed_version entry_of
    query success split_words strip
returned_over = refl

abbrev identity : CaseIdentity
identity = record { behavior_id = "B1"; driver = "cli"; profile = "user" }

scenario-case_problem_example : case_problem (case_of identity over.evidence) ≡ none
unfolding commands_problem
scenario-case_problem_example =
    scenario-case_problem fold quiet cli fixture identity "http://localhost" "lifecycle" start over
      (λ argv r s c. silent-IsLegible (small argv r s).ran c) refl (λ c e. absurd (cc e)) (inl refl)
      refl refl returned_over
