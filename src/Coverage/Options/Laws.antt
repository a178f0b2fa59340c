-- ===== src/Coverage/Options/Laws.antt =====
-- Which command lines count as an invocation of an option.
use flatpak_blackbox_tests.Base.{
  ◌-◌, String, Bool, true, false, not, ◌||◌, some, List, [], ◌∷◌, ◌++◌, ◌==◌, length, starts_with,
  if◌then◌else◌, ◌≡◌, refl, ap, ◌↔◌, arith, All, Bool-cases, inl, inr, eq_refl, length-append,
}
use flatpak_blackbox_tests.Coverage.Records.{EvidenceRecord}
use flatpak_blackbox_tests.Coverage.Options.{
  same_texts, drop, assigns, leading_option, invoked_option,
}

-- An argument that the loop does not stop at.
abbrev pub is_leading : String → Bool
is_leading argument = not (argument == "--" || not (starts_with argument "-"))

abbrev pub is_match : String → String → Bool
is_match option argument = argument == option || assigns option argument

-- The option stands among the leading arguments: before it are only leading arguments.
abbrev pub Leads : String → List String → Type 0
Leads option args =
    (before : List String) × (argument : String) × (after : List String) × (args
      ≡ before ++ argument ∷ after)
    × All (λ x. is_leading x ≡ true) before
    × (is_leading argument ≡ true)
    × (is_match option argument ≡ true)

leading_option-cons :
    (option x : String) (xs : List String)
    → leading_option option (x ∷ xs) ≡ (
        if is_leading x
        then (if is_match option x then true else leading_option option xs)
        else false)
unfolding leading_option
leading_option-cons option x xs = ground arith

leads→ :
    (option : String) (args : List String) → leading_option option args ≡ true → Leads option args
leads→ option [] h = unfold leading_option in cc
leads→ option (x ∷ xs) h = elim (Bool-cases (is_leading x)) [
  | inr stop ↦ absurd (ground (arith, leading_option-cons option x xs))
  | inl go ↦ elim (Bool-cases (is_match option x)) [
    | inl found ↦ ([], x, xs, refl, tt, go, found)
    | inr next ↦
        let (before, y, after, e, led, ly, my) =
          leads→ option xs (ground (arith, leading_option-cons option x xs)) in
        (x ∷ before, y, after, ap (λ ys. x ∷ ys) e, (go, led), ly, my)
  ]
]

leads← :
    (option : String) (before : List String) (y : String) (after : List String)
    → All (λ x. is_leading x ≡ true) before
    → is_leading y ≡ true
    → is_match option y ≡ true
    → leading_option option (before ++ y ∷ after) ≡ true
leads← option [] y after led ly my = rw leading_option-cons (rw (ly, my))
leads← option (x ∷ before) y after (go, led) ly my = ground (
  arith,
  leading_option-cons option x (before ++ y ∷ after),
  leads← option before y after led ly my,
)

-- A command line after the command has the option exactly when the option, or an assignment to it,
-- stands behind leading arguments only: each begins with `-` and none is `--`.
pub leading_option_iff :
    (option : String) (args : List String) → (leading_option option args ≡ true) ↔ Leads option args
leading_option_iff option args = (
  leads→ option args,
  λ (before, y, after, e, led, ly, my). rw e (leads← option before y after led ly my),
)

-- From the first payload argument on, what a command line holds changes nothing.
pub leading_option-payload :
    (option payload : String) (before after : List String)
    → is_leading payload ≡ false
    → leading_option option (before ++ payload ∷ after) ≡ leading_option option before
leading_option-payload option payload [] after h =
    rw leading_option-cons (rw h (unfold leading_option in refl))
leading_option-payload option payload (x ∷ before) after h =
    rw (leading_option-cons, leading_option-cons)
      (rw (leading_option-payload option payload before after h))

same_texts_self : (xs : List String) → same_texts xs xs ≡ true
same_texts_self [] = refl
same_texts_self (x ∷ xs) = rw (eq_refl, same_texts_self xs)

drop-append : (xs ys : List String) → drop (length xs) (xs ++ ys) ≡ ys
drop-append [] ys = refl
drop-append (x ∷ xs) ys = drop-append xs ys

drop_wrapper : (xs ys : List String) → drop (length (xs ++ ys) - length ys) (xs ++ ys) ≡ ys
drop_wrapper xs ys =
    let e : length (xs ++ ys) - length ys ≡ length xs = omega (arith, length-append xs ys) in
    rw e (drop-append xs ys)

-- A wrapper in front of the CLI changes nothing, if the record has the CLI's own command line and the
-- wrapper's command line ends with it.
pub invoked_option-wrapped :
    (record' : EvidenceRecord) (cli command option program : String) (wrapper more : List String)
    → (program == cli) ≡ false
    → let inner = cli ∷ more in
      let wrapped = record record' {
        argv = some (program ∷ (wrapper ++ inner));
        cli_argv = some inner;
      } in
      let direct = record record' { argv = some inner } in
      invoked_option wrapped cli command option ≡ invoked_option direct cli command option
unfolding invoked_option
invoked_option-wrapped record' cli command option program wrapper more h =
    rw (h, drop_wrapper (program ∷ wrapper) (cli ∷ more), eq_refl, same_texts_self, invoked_option)
