-- ===== src/Base/Text.antt =====
-- Python's `str` where the program looks inside it: membership in a list of texts, characters and
-- prefixes. A text is compared whole by `==`.
use Prim.Native.Nat.{ℕ}
use Prim.Native.Char.{code}
use Prim.Native.String.{String}
use mathlib.Core.Bool.{Bool, true, false, ◌&&◌, ◌||◌, not}
use mathlib.Core.List.{List, [], ◌∷◌}
use mathlib.Core.Option.{Option, none, some}
use text.Mathlib.Text.{◌==◌}
use flatpak_blackbox_tests.Base.Tests.{eqb, if◌then◌else◌}

-- `x in xs`
abbrev pub contains : String → List String → Bool
contains x [] = false
contains x (y ∷ ys) = y == x || contains x ys

-- `len(set(xs)) == len(xs)`: no text stands twice.
abbrev pub is_unique : List String → Bool
is_unique [] = true
is_unique (x ∷ xs) = not (contains x xs) && is_unique xs

-- `s.add(x)` for a set kept as a list without repetition
abbrev pub add : String → List String → List String
add x xs = if contains x xs then xs else x ∷ xs

-- `s.update(xs)`
abbrev pub add_all : List String → List String → List String
add_all [] ys = ys
add_all (x ∷ xs) ys = add x (add_all xs ys)

-- `c in s` for one character, given by its code
abbrev pub has_char : ℕ → String → Bool
has_char c String.[] = false
has_char c (String.◌∷◌ d s) = eqb (code d) c || has_char c s

abbrev pub all_chars : (ℕ → Bool) → String → Bool
all_chars p String.[] = true
all_chars p (String.◌∷◌ c s) = p (code c) && all_chars p s

abbrev pub is_empty : String → Bool
is_empty String.[] = true
is_empty (String.◌∷◌ c s) = false

abbrev pub char_count : String → ℕ
char_count String.[] = 0
char_count (String.◌∷◌ c s) = ℕ.suc (char_count s)

-- `s.removeprefix(p)` where `p` is a prefix of `s`, and `none` where it is not
abbrev pub after_prefix : String → String → Option String
after_prefix String.[] s = some s
after_prefix (String.◌∷◌ c p) String.[] = none
after_prefix (String.◌∷◌ c p) (String.◌∷◌ d s) =
    let rest = after_prefix p s in if eqb (code c) (code d) then rest else none

abbrev pub is_some {ℓ} : {A : Type ℓ} → Option A → Bool
is_some none = false
is_some (some a) = true

-- `s.startswith(p)`
abbrev pub starts_with : String → String → Bool
starts_with s p = is_some (after_prefix p s)

-- `s.endswith(p)`
abbrev pub ends_with : String → String → Bool
ends_with String.[] p = String.[] == p
ends_with (String.◌∷◌ c s) p = String.◌∷◌ c s == p || ends_with s p
