-- ===== src/Target/Laws.antt =====
-- What a configuration that is returned has.
use flatpak_blackbox_tests.Base.{
  ℕ, ◌+◌, String, Bool, true, false, not, Option, none, some, List, [], ◌∷◌, contains, has_char,
  is_empty, ◌≡◌, refl, subst, All,
}
use flatpak_blackbox_tests.Base.Dict.{Dict}
use flatpak_blackbox_tests.Json.Value.{
  Value, null, text, list, dict, nil, end, FieldPath, field, item, Result, ok, err, ◌>>=◌,
  >>=-eq-ok, then-eq-ok, guard-then, ok_injective,
}
use flatpak_blackbox_tests.Json.Validate.{
  object_map, array, string, strings, string_items, required,
}
use flatpak_blackbox_tests.Typed.Shape.{string_iff}
use flatpak_blackbox_tests.Target.{
  LibraryConfig, TargetConfig, known_fields, library_fields, get, environment_entries,
  parse_environment, target_fields, parse_library, capability_entries, has_executable,
  optional_library, parse_target, text_or,
}

-- What an argument of a program, or the value of a variable, can be: no character 0.
abbrev pub IsClean : String → Type 0
IsClean s = has_char 0 s ≡ false

abbrev pub IsFilled : String → Type 0
IsFilled s = (has_char 0 s ≡ false) × (is_empty s ≡ false)

-- A variable: a nonempty name without `=`, and a value.
abbrev pub IsVariable : String × String → Type 0
IsVariable (name, value) = IsFilled name × (has_char b'=' name ≡ false) × IsClean value

abbrev pub IsReason : String × String → Type 0
IsReason (capability, reason) = IsFilled capability × IsFilled reason

string-IsClean : (v : Value) (p : FieldPath) (s : String) → string v p false ≡ ok s → IsClean s
string-IsClean v p s h = ((string_iff v p false s).0 h).1

string-IsFilled : (v : Value) (p : FieldPath) (s : String) → string v p true ≡ ok s → IsFilled s
string-IsFilled v p s h = let (_, clean, filled) = (string_iff v p true s).0 h in (clean, filled)

not-true : (b : Bool) → not b ≡ true → b ≡ false
not-true false h = refl
not-true true h = cc h

name-IsFilled :
    (k : String) (p : FieldPath) (s : String) → string (text k) p true ≡ ok s → IsFilled k
name-IsFilled k p s h =
    let (e, clean, filled) = (string_iff (text k) p true s).0 h in
    let same : s ≡ k = cc e in subst IsFilled same (clean, filled)

environment_entries-All :
    (d : Dict Value) (path : FieldPath) (r : Dict String)
    → environment_entries d path ≡ ok r
    → All IsVariable r
unfolding environment_entries
environment_entries-All [] path r h = subst (All IsVariable) (ok_injective h) tt
environment_entries-All ((k, v) ∷ d) path r h =
    let (k', named, h₁) = >>=-eq-ok (string (text k) path true) _ h in
    let (plain, h₂) = guard-then (not (has_char b'=' k)) _ _ h₁ in
    let (s, read, h₃) = >>=-eq-ok (string v (field path k) false) _ h₂ in
    let (rest, others, h₄) = >>=-eq-ok (environment_entries d path) _ h₃ in
    subst (All IsVariable) (ok_injective h₄) (
      (
        name-IsFilled k path k' named,
        not-true (has_char b'=' k) plain,
        string-IsClean v (field path k) s read,
      ),
      environment_entries-All d path rest others,
    )

parse_environment-All :
    (v : Value) (path : FieldPath) (r : Dict String)
    → parse_environment v path ≡ ok r
    → All IsVariable r
unfolding parse_environment
parse_environment-All v path r h =
    let (d, _, h₁) = >>=-eq-ok (object_map v path) _ h in environment_entries-All d path r h₁

capability_entries-All :
    (d : Dict Value) (path : FieldPath) (r : Dict String)
    → capability_entries d path ≡ ok r
    → All IsReason r
unfolding capability_entries
capability_entries-All [] path r h = subst (All IsReason) (ok_injective h) tt
capability_entries-All ((k, v) ∷ d) path r h =
    let (k', named, h₁) = >>=-eq-ok (string (text k) path true) _ h in
    let (s, read, h₂) = >>=-eq-ok (string v (field path k) true) _ h₁ in
    let (rest, others, h₃) = >>=-eq-ok (capability_entries d path) _ h₂ in
    subst (All IsReason) (ok_injective h₃) (
      (name-IsFilled k path k' named, string-IsFilled v (field path k) s read),
      capability_entries-All d path rest others,
    )

string_items-All :
    (vs : List Value) (path : FieldPath) (i : ℕ) (r : List String)
    → string_items vs path i false ≡ ok r
    → All IsClean r
unfolding string_items
string_items-All [] path i r h = subst (All IsClean) (ok_injective h) tt
string_items-All (v ∷ vs) path i r h =
    let (s, read, h₁) = >>=-eq-ok (string v (item path i) false) _ h in
    let (rest, others, h₂) = >>=-eq-ok (string_items vs path (i + 1) false) _ h₁ in
    subst (All IsClean) (ok_injective h₂)
      (string-IsClean v (item path i) s read, string_items-All vs path (i + 1) rest others)

strings-All :
    (v : Value) (path : FieldPath) (r : List String) → strings v path false ≡ ok r → All IsClean r
unfolding strings
strings-All v path r h =
    let (vs, _, h₁) = >>=-eq-ok (array v path) _ h in string_items-All vs path 0 r h₁

known_fields-All :
    (d : Dict Value) (fields : List String) (path : FieldPath)
    → known_fields d fields path ≡ ok tt
    → All (λ (e : String × Value). contains e.0 fields ≡ true) d
unfolding known_fields
known_fields-All [] fields path h = tt
known_fields-All ((k, v) ∷ d) fields path h =
    let (here, rest) = guard-then (contains k fields) _ _ h in
    (here, known_fields-All d fields path rest)

pub record IsUsableLibrary (l : LibraryConfig) : Type 0 where
  pub environment : All IsVariable l.environment
  pub pkg_config : IsFilled l.pkg_config
  pub «package» : IsFilled l.«package»
  pub cc : IsFilled l.cc
  pub soname : IsFilled l.soname

abbrev pub IsUsableOption : Option LibraryConfig → Type 0
IsUsableOption none = Unit
IsUsableOption (some l) = IsUsableLibrary l

parse_library-IsUsable :
    (v : Value) (path : FieldPath) (l : LibraryConfig)
    → parse_library v path ≡ ok l
    → IsUsableLibrary l
unfolding parse_library
parse_library-IsUsable v path l h =
    let (d, _, h₁) = >>=-eq-ok (object_map v path) _ h in
    let (_, h₂) = then-eq-ok (known_fields d library_fields path) _ h₁ in
    let (dirs, _, h₃) =
      >>=-eq-ok
        (strings (get d "runtime_library_dirs" (list nil)) (field path "runtime_library_dirs") true)
        _ h₂ in
    let (env, e, h₄) =
      >>=-eq-ok (parse_environment (get d "environment" (dict end)) (field path "environment")) _
        h₃ in
    let (pkg, p, h₅) = >>=-eq-ok (text_or d "pkg_config" "pkg-config" path) _ h₄ in
    let (name, n, h₆) = >>=-eq-ok (text_or d "package" "flatpak" path) _ h₅ in
    let (compiler, c, h₇) = >>=-eq-ok (text_or d "cc" "cc" path) _ h₆ in
    let (so, s, h₈) = >>=-eq-ok (text_or d "soname" "libflatpak.so.0" path) _ h₇ in
    subst IsUsableLibrary (ok_injective h₈) (record {
      environment = parse_environment-All _ _ env e;
      pkg_config = string-IsFilled _ _ pkg p;
      «package» = string-IsFilled _ _ name n;
      cc = string-IsFilled _ _ compiler c;
      soname = string-IsFilled _ _ so s;
    })

made :
    (r : Result LibraryConfig) (o : Option LibraryConfig)
    → ((m : LibraryConfig) → r ≡ ok m → IsUsableLibrary m)
    → (r >>= λ m. ok (some m)) ≡ ok o
    → IsUsableOption o
made (ok m) o h e = subst IsUsableOption (ok_injective e) (h m refl)
made (err f) o h e = cc e

optional_library-IsUsable :
    (v : Value) (path : FieldPath) (o : Option LibraryConfig)
    → optional_library v path ≡ ok o
    → IsUsableOption o
optional_library-IsUsable null path o h = subst IsUsableOption (ok_injective h) tt
optional_library-IsUsable v path o h =
    made (parse_library v path) o (parse_library-IsUsable v path) h

-- What the runner may rely on in a configuration.
pub record IsUsable (c : TargetConfig) : Type 0 where
  pub name : IsFilled c.name
  pub cli : IsFilled c.cli
  pub adapter : has_executable c.adapter ≡ true
  pub arguments : All IsClean c.adapter
  pub environment : All IsVariable c.environment
  pub unsupported : All IsReason c.unsupported_capabilities
  pub library : IsUsableOption c.library

-- A configuration that is returned comes from an object without unknown fields. Its name and its
-- command are nonempty, its adapter has an executable, no argument has a character 0, every variable
-- has a nonempty name without `=`, every unsupported capability has a name and a reason, and its
-- library, if any, has nonempty programs and names.
pub parse_target-IsUsable :
    (value : Value) (path : FieldPath) (c : TargetConfig)
    → parse_target value path ≡ ok c
    → IsUsable c
      × ((d : Dict Value) × (object_map value path ≡ ok d)
          × All (λ (e : String × Value). contains e.0 target_fields ≡ true) d)
unfolding parse_target
parse_target-IsUsable value path c h =
    let (d, object, h₁) = >>=-eq-ok (object_map value path) _ h in
    let (only, h₂) = then-eq-ok (known_fields d target_fields path) _ h₁ in
    let (raw, _, h₃) = >>=-eq-ok (required d "adapter" path) _ h₂ in
    let (program, read, h₄) = >>=-eq-ok (strings raw (field path "adapter") false) _ h₃ in
    let (executable, h₅) = guard-then (has_executable program) _ _ h₄ in
    let (raw', _, h₆) =
      >>=-eq-ok
        (object_map (get d "unsupported_capabilities" (dict end))
          (field path "unsupported_capabilities"))
        _ h₅ in
    let (unsupported, u, h₇) =
      >>=-eq-ok (capability_entries raw' (field path "unsupported_capabilities")) _ h₆ in
    let (name_value, _, h₈) = >>=-eq-ok (required d "name" path) _ h₇ in
    let (title, n, h₉) = >>=-eq-ok (string name_value (field path "name") true) _ h₈ in
    let (cli_value, _, h₁₀) = >>=-eq-ok (required d "cli" path) _ h₉ in
    let (command, m, h₁₁) = >>=-eq-ok (string cli_value (field path "cli") true) _ h₁₀ in
    let (env, e, h₁₂) =
      >>=-eq-ok (parse_environment (get d "environment" (dict end)) (field path "environment")) _
        h₁₁ in
    let (development, l, h₁₃) =
      >>=-eq-ok (optional_library (get d "library" null) (field path "library")) _ h₁₂ in
    (
      subst IsUsable (ok_injective h₁₃) (record {
        name = string-IsFilled name_value (field path "name") title n;
        cli = string-IsFilled cli_value (field path "cli") command m;
        adapter = executable;
        arguments = strings-All raw (field path "adapter") program read;
        environment = parse_environment-All _ _ env e;
        unsupported =
            capability_entries-All raw' (field path "unsupported_capabilities") unsupported u;
        library =
            optional_library-IsUsable (get d "library" null) (field path "library") development l;
      }),
      (d, object, known_fields-All d target_fields path only),
    )
