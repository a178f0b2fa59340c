-- ===== src/Base/Words.antt =====
-- Python's `str.strip`, `str.split`, `str.splitlines`, `str.lower` on ASCII letters, and `in` on texts.
use Prim.Native.Nat.{ℕ}
use Prim.Native.Char.{Char, code}
use Prim.Native.String.{String}
use mathlib.Core.Bool.{Bool, false, ◌&&◌, ◌||◌}
use mathlib.Core.List.{List, [], ◌∷◌}
use flatpak_blackbox_tests.Base.Tests.{leb, eqb, if◌then◌else◌}
use flatpak_blackbox_tests.Base.Text.{is_empty, starts_with}

-- what `str.isspace` holds of one character
abbrev pub is_space : ℕ → Bool
is_space c =
    leb 9 c && leb c 13
    || (leb 28 c && leb c 32
        || (eqb c 133
            || (eqb c 160
                || (eqb c 5760
                    || (leb 8192 c && leb c 8202
                        || (eqb c 8232
                            || (eqb c 8233 || (eqb c 8239 || (eqb c 8287 || eqb c 12288)))))))))

abbrev pub left_strip : String → String
left_strip String.[] = String.[]
left_strip (String.◌∷◌ c s) =
    let rest = left_strip s in if is_space (code c) then rest else String.◌∷◌ c s

abbrev pub right_strip : String → String
right_strip String.[] = String.[]
right_strip (String.◌∷◌ c s) =
    let rest = right_strip s in
    if is_space (code c) && is_empty rest then String.[] else String.◌∷◌ c rest

unfoldable pub strip : String → String
strip s = right_strip (left_strip s)

abbrev pub push : String → List String → List String
push String.[] ws = ws
push (String.◌∷◌ c s) ws = String.◌∷◌ c s ∷ ws

-- the word that a text begins with, empty at a space, and the words behind it
unfoldable pub word_split : String → String × List String
word_split String.[] = (String.[], [])
word_split (String.◌∷◌ c s) =
    let (w, ws) = word_split s in
    if is_space (code c) then (String.[], push w ws) else (String.◌∷◌ c w, ws)

-- `s.split()`
unfoldable pub split_words : String → List String
unfolding word_split
split_words s = let (w, ws) = word_split s in push w ws

-- the characters that `splitlines` breaks at
abbrev pub is_break : ℕ → Bool
is_break c =
    leb 10 c && leb c 13 || (leb 28 c && leb c 30 || (eqb c 133 || (eqb c 8232 || eqb c 8233)))

abbrev pub cons_first : Char → List String → List String
cons_first c [] = String.◌∷◌ c String.[] ∷ []
cons_first c (l ∷ ls) = String.◌∷◌ c l ∷ ls

-- Behind a carriage return, a line feed is the rest of the same break.
abbrev pub starts_with_feed : String → Bool
starts_with_feed String.[] = false
starts_with_feed (String.◌∷◌ c s) = eqb (code c) 10

-- `s.splitlines()`
unfoldable pub split_lines : String → List String
split_lines String.[] = []
split_lines (String.◌∷◌ c s) =
    let rest = split_lines s in
    if eqb (code c) 13 && starts_with_feed s
    then rest
    else if is_break (code c)
    then String.[] ∷ rest
    else cons_first c rest

-- `needle in text`
unfoldable pub has_text : String → String → Bool
has_text needle String.[] = is_empty needle
has_text needle (String.◌∷◌ c s) = starts_with (String.◌∷◌ c s) needle || has_text needle s

-- `s.split(c)` for one character, given by its code: the first part and the others
abbrev pub split_at : ℕ → String → String × List String
split_at sep String.[] = (String.[], [])
split_at sep (String.◌∷◌ c s) =
    let (w, ws) = split_at sep s in
    if eqb (code c) sep then (String.[], w ∷ ws) else (String.◌∷◌ c w, ws)
