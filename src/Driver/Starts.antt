-- ===== src/Driver/Starts.antt =====
-- The command lines of the driver name a program, and its interfaces are known.
use flatpak_blackbox_tests.Base.{
  String, Bool, true, false, Option, none, some, List, [], ◌∷◌, ◌==◌, if◌then◌else◌, contains,
  is_empty, ◌≡◌, refl,
}
use flatpak_blackbox_tests.Coverage.Subject.{has_program}
use flatpak_blackbox_tests.Driver.Commands.{
  argv_of, interface_of, remote_cli_args, under, library_argv, cli_args,
}
use flatpak_blackbox_tests.Driver.{Outcome, returned, raised, Driver}

-- A command line that a script can start: its program has a name.
abbrev pub Starts : Outcome (List String) → Type 0
Starts (returned argv) = has_program argv ≡ true
Starts (raised f) = Unit

if-Starts :
    (b : Bool) (x y : Outcome (List String)) → Starts x → Starts y → Starts (if b then x else y)
if-Starts true x y h k = h
if-Starts false x y h k = k

not_empty : (s : String) → is_empty s ≡ false → (rest : List String) → has_program (s ∷ rest) ≡ true
not_empty s h rest = rw h refl

under-Starts : (s : String) (o : Outcome (List String)) → is_empty s ≡ false → Starts (under s o)
under-Starts s (returned args) h = not_empty s h args
under-Starts s (raised f) h = tt

library-Starts :
    (client : Option String) (operation : String) (arguments : List String)
    → ((c : String) → client ≡ some c → is_empty c ≡ false)
    → Starts (library_argv client operation arguments)
library-Starts none operation arguments h = tt
library-Starts (some c) operation arguments h = not_empty c (h c refl) (operation ∷ arguments)

pub argv_of-Starts :
    (d : Driver) (operation : String) (arguments : List String)
    → is_empty d.cli ≡ false
    → ((c : String) → d.client ≡ some c → is_empty c ≡ false)
    → Starts (argv_of d operation arguments)
unfolding argv_of
argv_of-Starts d operation arguments cli client =
    if-Starts (operation == "run") _ _ (not_empty d.cli cli ("run" ∷ "--user" ∷ arguments)) (
      if-Starts (d.kind == "library") _ _ (library-Starts d.client operation arguments client) (
        under-Starts d.cli (cli_args (remote_cli_args operation arguments) operation arguments)
          cli))

is_interface :
    (b c : Bool) (P : String → Type 0)
    → P "cli"
    → P "library"
    → P (if b then (if c then "cli" else "library") else "cli")
is_interface true true P h k = h
is_interface true false P h k = k
is_interface false c P h k = h

pub interface_known :
    (d : Driver) (operation : String)
    → (contains (interface_of d operation) ("cli" ∷ "library" ∷ "setup" ∷ []) ≡ true)
      × ((interface_of d operation == "setup") ≡ false)
unfolding interface_of
interface_known d operation =
    is_interface (d.kind == "library") (operation == "run")
      (λ i. (contains i ("cli" ∷ "library" ∷ "setup" ∷ []) ≡ true) × ((i == "setup") ≡ false))
      (refl, refl) (refl, refl)
