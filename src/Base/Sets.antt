-- ===== src/Base/Sets.antt =====
-- Membership in the sets that are kept as lists.
use mathlib.Core.Path.{◌≡◌, refl}
use mathlib.Core.Bool.{Bool, ◌||◌}
use mathlib.Core.List.{List, [], ◌∷◌}
use Prim.Native.String.{String}
use native.Mathlib.Omega.{arith}
use text.Mathlib.Text.{◌==◌}
use text.Mathlib.TextEquality.{eq_iff}
use flatpak_blackbox_tests.Base.Text.{contains, add, add_all}

pub contains-add :
    (i x : String) (xs : List String) → contains i (add x xs) ≡ (x == i || contains i xs)
contains-add i x xs = ground (arith, eq_iff x i)

pub contains-add_all :
    (i : String) (xs ys : List String)
    → contains i (add_all xs ys) ≡ (contains i xs || contains i ys)
contains-add_all i [] ys = refl
contains-add_all i (x ∷ xs) ys =
    ground (arith, contains-add i x (add_all xs ys), contains-add_all i xs ys)

pub or_assoc : (a b c : Bool) → ((a || b) || c) ≡ (a || (b || c))
or_assoc a b c = ground arith

pub or_swap : (a b c : Bool) → ((a || b) || c) ≡ (b || (a || c))
or_swap a b c = ground arith
