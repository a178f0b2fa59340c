-- ===== src/Coverage/Options.antt =====
-- coverage_report.py: `invoked_option`, and the split of an option's identifier in `summarize`.
pub mod Laws
use Prim.Native.Char.{code}
use flatpak_blackbox_tests.Base.{
  ℕ, ◌-◌, String, Bool, true, false, not, ◌&&◌, ◌||◌, Option, none, some, List, [], ◌∷◌, ◌==◌,
  length, eqb, after_prefix, starts_with, if◌then◌else◌,
}
use flatpak_blackbox_tests.Coverage.Records.{EvidenceRecord, or_empty, is_text}

-- `xs == ys` for lists of texts
abbrev pub same_texts : List String → List String → Bool
same_texts [] [] = true
same_texts (x ∷ xs) (y ∷ ys) = x == y && same_texts xs ys
same_texts [] (y ∷ ys) = false
same_texts (x ∷ xs) [] = false

abbrev pub drop {ℓ} : {A : Type ℓ} → ℕ → List A → List A
drop ℕ.zero xs = xs
drop (ℕ.suc n) [] = []
drop (ℕ.suc n) (x ∷ xs) = drop n xs

-- `argument.startswith(option + "=")`
abbrev pub assigns : String → String → Bool
assigns option argument = elim (after_prefix option argument) [
  | none ↦ false
  | some rest ↦ starts_with rest "="
]

-- the loop over `argv[2:]`
unfoldable pub leading_option : String → List String → Bool
leading_option option [] = false
leading_option option (argument ∷ rest) =
    let later = leading_option option rest in
    if argument == "--" || not (starts_with argument "-")
    then false
    else if argument == option || assigns option argument
    then true
    else later

-- `argv` must end with the recorded inner command line.
unfoldable pub inner_arguments : String → List String → List String → Option (List String)
inner_arguments cli [] argv = none
inner_arguments cli (first ∷ more) argv =
    if first == cli && same_texts (drop (length argv - length (first ∷ more)) argv) (first ∷ more)
    then some (first ∷ more)
    else none

-- The command line of the CLI itself, behind a wrapper's own arguments.
unfoldable pub cli_arguments : EvidenceRecord → String → Option (List String)
unfolding inner_arguments
cli_arguments record' cli = elim (or_empty record'.argv) [
  | [] ↦ none
  | program ∷ rest ↦
      if program == cli
      then some (program ∷ rest)
      else inner_arguments cli (or_empty record'.cli_argv) (program ∷ rest)
]

unfoldable pub option_after : String → String → List String → Bool
unfolding leading_option
option_after command option (program ∷ name ∷ rest) =
    if name == command then leading_option option rest else false
option_after command option _ = false

unfoldable pub invoked_option : EvidenceRecord → String → String → String → Bool
unfolding cli_arguments option_after
invoked_option record' cli command option =
    if is_text "cli" record'.interface
    then elim (cli_arguments record' cli) [
      | none ↦ false
      | some argv ↦ option_after command option argv
    ]
    else false

-- `identifier.split(".", 1)`, if there is a dot
abbrev pub split_dot : String → Option (String × String)
split_dot String.[] = none
split_dot (String.◌∷◌ c s) =
    let later = split_dot s in
    if eqb (code c) b'.'
    then some (String.[], s)
    else elim later [ none ↦ none | some p ↦ some (String.◌∷◌ c p.0, p.1) ]

-- `identifier.removeprefix("cli.option.").split(".", 1)`; the unpacking fails where there is no dot.
unfoldable pub command_option : String → Option (String × String)
command_option identifier = elim (after_prefix "cli.option." identifier) [
  | none ↦ split_dot identifier
  | some rest ↦ split_dot rest
]
