-- ===== src/Driver/Text.antt =====
-- run.py: what the driver reads in the output of a command.
use flatpak_blackbox_tests.Base.{String, none, some, List, [], ◌∷◌, after_prefix, add}
use flatpak_blackbox_tests.Base.Sort.{sorted}
use flatpak_blackbox_tests.Base.Words.{split_lines}

-- `{line.removeprefix(prefix) for line in lines if line.startswith(prefix)}`
unfoldable pub marked : String → List String → List String
marked prefix [] = []
marked prefix (line ∷ lines) = elim (after_prefix prefix line) [
  | none ↦ marked prefix lines
  | some rest ↦ add rest (marked prefix lines)
]

-- `sorted({...})` over the lines of a diagnostic
unfoldable pub marked_lines : String → String → List String
unfolding marked
marked_lines prefix stderr = sorted (marked prefix (split_lines stderr))
