-- ===== src/Driver/Checks.antt =====
-- run.py: the driver's assertions on errors and on installed refs. `str.casefold` is the parameter `fold`.
use flatpak_blackbox_tests.Base.{
  ℕ, String, Bool, true, false, Option, none, some, List, [], ◌∷◌, ◌==◌, if◌then◌else◌, any, eqb,
}
use flatpak_blackbox_tests.Base.Dict.{Dict, lookup}
use flatpak_blackbox_tests.Base.Int.{ℤ, pos}
use flatpak_blackbox_tests.Base.Words.{split_words, split_at, has_text}
use flatpak_blackbox_tests.Runner.Failures.{contract_failure, other, uncaught}
use flatpak_blackbox_tests.Driver.{
  Completed, Reply, Repository, Driver, Script, ◌>>=◌, ◌>>◌, give, raise, require,
}
use flatpak_blackbox_tests.Driver.Calls.{call, success, is_positive}

-- the statuses of the library client's protocol
abbrev pub statuses : Dict ℕ
statuses = ("NOT_INSTALLED", 3) ∷ ("ALREADY_INSTALLED", 4) ∷ ("REF_NOT_FOUND", 5) ∷ []

abbrev pub diagnostics : Dict (List String)
diagnostics =
    ("NOT_INSTALLED", "not installed" ∷ "nothing matches" ∷ "no installed refs found" ∷ [])
    ∷ ("REF_NOT_FOUND", "no remote refs found" ∷ "not found" ∷ "nothing matches" ∷ [])
    ∷ []

abbrev pub is_status : ℕ → ℤ → Bool
is_status n (pos m) = eqb m n
is_status n _ = false

-- `xs[1]`
abbrev pub second : List String → Option String
second [] = none
second (x ∷ []) = none
second (x ∷ y ∷ ys) = some y

-- `ref.split("/")[1]`
abbrev pub ref_name : String → Option String
ref_name ref = let (w, ws) = split_at b'/' ref in second (w ∷ ws)

-- `d[key]`: a key that is not there is `other`.
unfoldable pub entry_of : {S A : Type 0} → Option A → Script S A
entry_of none = raise other
entry_of (some a) = give a

-- `xs[n]`: an IndexError is not caught.
unfoldable pub item_of : {S A : Type 0} → Option A → Script S A
item_of none = raise uncaught
item_of (some a) = give a

module _ {S : Type 0} (fold : String → String) (exec : List String → Repository → S → Reply S)
    (d : Driver) where
  unfoldable pub expect_library_error : String → Completed → Script S (Unit {0})
  expect_library_error error_name result = do
    status ← entry_of (lookup error_name statuses)
    require (is_status status result.returncode)

  unfoldable pub expect_cli_error : String → String → Completed → Script S (Unit {0})
  expect_cli_error ref error_name result = do
    require (is_positive result.returncode)
    name ← item_of (ref_name ref)
    require (has_text name result.stderr)
    texts ← entry_of (lookup error_name diagnostics)
    require (any (λ t. has_text t (fold result.stderr)) texts)

  unfoldable pub expect_error : String → String → String → Script S (Unit {0})
  unfolding expect_library_error expect_cli_error
  expect_error operation ref error_name = do
    result ← call exec d operation (ref ∷ [])
    if d.kind == "library"
        then expect_library_error error_name result
        else expect_cli_error ref error_name result

  -- `expected ref and commit`
  unfoldable pub two_words : List String → Script S (String × String)
  two_words (ref ∷ commit ∷ []) = give (ref, commit)
  two_words _ = raise contract_failure

  abbrev pub is_commit : Option String → String → Bool
  is_commit none actual = true
  is_commit (some commit) actual = actual == commit

  unfoldable pub query : String → Option String → Script S String
  unfolding two_words
  query ref commit = do
    output ← success exec d "query" (ref ∷ [])
    found ← two_words (split_words output)
    require (found.0 == ref)
    require (is_commit commit found.1)
    give found.1
