-- ===== src/Driver/Commands.antt =====
-- run.py and remote_scenarios.py: the command line that stands for an operation.
use Prim.Native.String.{◌++◌ as ◌<>◌}
use flatpak_blackbox_tests.Base.{String, Option, none, some, List, [], ◌∷◌, ◌==◌, if◌then◌else◌}
use flatpak_blackbox_tests.Base.Dict.{Dict, lookup}
use flatpak_blackbox_tests.Runner.Failures.{other, uncaught}
use flatpak_blackbox_tests.Driver.{Driver, Outcome, returned, raised}

abbrev create_args : List String → Outcome (Option (List String))
create_args (name ∷ url ∷ title ∷ priority ∷ []) = returned (
    some (
      "remote-add"
      ∷ "--user"
      ∷ "--no-gpg-verify"
      ∷ ("--title=" <> title)
      ∷ ("--prio=" <> priority)
      ∷ name
      ∷ url
      ∷ []))
create_args _ = raised other

abbrev edit_args : List String → Outcome (Option (List String))
edit_args (name ∷ url ∷ title ∷ priority ∷ []) = returned (
    some (
      "remote-modify"
      ∷ "--user"
      ∷ ("--url=" <> url)
      ∷ ("--title=" <> title)
      ∷ ("--prio=" <> priority)
      ∷ name
      ∷ []))
edit_args _ = raised other

abbrev list_args : List String → Outcome (Option (List String))
list_args [] =
    returned
      (some ("remotes" ∷ "--user" ∷ "--show-disabled" ∷ "--columns=name,url,title,priority" ∷ []))
list_args _ = raised other

abbrev delete_args : List String → Outcome (Option (List String))
delete_args (name ∷ []) = returned (some ("remote-delete" ∷ "--user" ∷ name ∷ []))
delete_args _ = raised other

-- A `ValueError` for the wrong number of arguments is `other`.
unfoldable pub remote_cli_args : String → List String → Outcome (Option (List String))
remote_cli_args operation arguments =
    if operation == "remote-create"
    then create_args arguments
    else if operation == "remote-edit"
    then edit_args arguments
    else if operation == "remote-list"
    then list_args arguments
    else if operation == "remote-delete"
    then delete_args arguments
    else returned none

-- the dictionary `commands`
abbrev pub commands : String → Dict (List String)
commands argument =
    ("remote", "remote-add" ∷ "--user" ∷ "--no-gpg-verify" ∷ "fixture" ∷ argument ∷ [])
    ∷ ("install", "install" ∷ "--user" ∷ "--noninteractive" ∷ "fixture" ∷ argument ∷ [])
    ∷ ("update", "update" ∷ "--user" ∷ "--noninteractive" ∷ argument ∷ [])
    ∷ ("uninstall", "uninstall" ∷ "--user" ∷ "--noninteractive" ∷ argument ∷ [])
    ∷ ("query", "info" ∷ "--user" ∷ "--show-ref" ∷ "--show-commit" ∷ argument ∷ [])
    ∷ ("list-apps", "list" ∷ "--user" ∷ "--app" ∷ "--columns=application" ∷ [])
    ∷ ("list-refs", "list" ∷ "--user" ∷ "--columns=ref" ∷ [])
    ∷ []

-- `argument, = arguments`, and `commands[operation]`
abbrev pub plain_args : String → List String → Outcome (List String)
plain_args operation (argument ∷ []) = elim (lookup operation (commands argument)) [
  | none ↦ raised other
  | some args ↦ returned args
]
plain_args operation _ = raised other

abbrev pub cli_args : Outcome (Option (List String)) → String → List String → Outcome (List String)
cli_args (raised f) operation arguments = raised f
cli_args (returned (some args)) operation arguments = returned args
cli_args (returned none) operation arguments = plain_args operation arguments

abbrev pub under : String → Outcome (List String) → Outcome (List String)
under program (returned args) = returned (program ∷ args)
under program (raised f) = raised f

-- The `assert` on the client is `uncaught`: the runner has one before it runs a library case.
abbrev pub library_argv : Option String → String → List String → Outcome (List String)
library_argv none operation arguments = raised uncaught
library_argv (some client) operation arguments = returned (client ∷ operation ∷ arguments)

-- the command line of `Driver.call`
unfoldable pub argv_of : Driver → String → List String → Outcome (List String)
unfolding remote_cli_args
argv_of d operation arguments =
    if operation == "run"
    then returned (d.cli ∷ "run" ∷ "--user" ∷ arguments)
    else if d.kind == "library"
    then library_argv d.client operation arguments
    else under d.cli (cli_args (remote_cli_args operation arguments) operation arguments)

-- the interface that a call is recorded under
unfoldable pub interface_of : Driver → String → String
interface_of d operation =
    if d.kind == "library" then (if operation == "run" then "cli" else "library") else "cli"
