-- ===== src/Driver/Remotes.antt =====
-- remote_scenarios.py: the scenarios on the configuration of remotes.
use Prim.Native.String.{◌++◌ as ◌<>◌}
use flatpak_blackbox_tests.Base.{
  ℕ, String, Bool, true, false, ◌&&◌, Option, none, some, List, [], ◌∷◌, ◌==◌, if◌then◌else◌, any,
  all, eqb, length, is_empty,
}
use flatpak_blackbox_tests.Base.Words.{split_lines, split_at, has_text}
use flatpak_blackbox_tests.Runner.Failures.{contract_failure, uncaught}
use flatpak_blackbox_tests.Driver.{
  Completed, Reply, Repository, Driver, Script, ◌>>=◌, ◌>>◌, give, raise, require, set_version,
}
use flatpak_blackbox_tests.Driver.Calls.{call, success}
use flatpak_blackbox_tests.Driver.Checks.{is_status}
use flatpak_blackbox_tests.Driver.Scenario.{Fixture, app_ref, missing_ref}

-- `RemoteRow`
pub record RemoteRow : Type 0 where
  pub name : String
  pub url : String
  pub title : Option String
  pub priority : String

abbrev pub same_title : Option String → Option String → Bool
same_title none none = true
same_title (some s) (some t) = s == t
same_title _ _ = false

abbrev pub same_row : RemoteRow → RemoteRow → Bool
same_row r s =
    r.name == s.name && (r.url == s.url && (same_title r.title s.title && r.priority == s.priority))

-- equality of lists
abbrev pub same_rows : List RemoteRow → List RemoteRow → Bool
same_rows [] [] = true
same_rows (r ∷ rs) (s ∷ ss) = same_row r s && same_rows rs ss
same_rows _ _ = false

-- `set(xs) <= set(ys)`
abbrev pub is_within : List RemoteRow → List RemoteRow → Bool
is_within rs ss = all (λ r. any (λ s. same_row r s) ss) rs

abbrev pub matches : Bool → List RemoteRow → List RemoteRow → Bool
matches true actual expected = same_rows actual expected
matches false actual expected =
    eqb (length actual) (length expected)
    && (is_within actual expected && is_within expected actual)

abbrev pub row : String → String → String → String → RemoteRow
row name url title priority = record {
  name = name;
  url = url;
  title = some title;
  priority = priority;
}

module _ {S : Type 0} (exec : List String → Repository → S → Reply S) (d : Driver) where
  -- `None if driver.kind == "library" and title == r"\N" else title`
  abbrev pub normalized_title : String → Option String
  normalized_title title = if d.kind == "library" && title == "\\N" then none else some title

  unfoldable pub row_of : List String → Script S RemoteRow
  row_of (name ∷ url ∷ title ∷ priority ∷ []) =
      give (record { name = name; url = url; title = normalized_title title; priority = priority })
  row_of _ = raise contract_failure

  abbrev fields_of : String → List String
  fields_of line = let (field, rest) = split_at b'\t' line in field ∷ rest

  unfoldable pub rows_of : List String → Script S (List RemoteRow)
  unfolding row_of
  rows_of [] = give []
  rows_of (line ∷ lines) = do
    first ← row_of (fields_of line)
    rest ← rows_of lines
    give (first ∷ rest)

  -- `_rows`
  unfoldable pub rows : String → List String → Script S (List RemoteRow)
  unfolding rows_of
  rows operation arguments = do
    output ← success exec d operation arguments
    rows_of (split_lines output)

  unfoldable pub expect_lookups : List RemoteRow → Script S (Unit {0})
  unfolding rows
  expect_lookups [] = give tt
  expect_lookups (r ∷ rs) = do
    queried ← rows "remote-query" (r.name ∷ [])
    require (same_rows queried (r ∷ []))
    expect_lookups rs

  -- `_expect_remotes`, with `ordered` first
  unfoldable pub expect_remotes : Bool → List RemoteRow → Script S (Unit {0})
  unfolding expect_lookups
  expect_remotes ordered expected = do
    actual ← rows "remote-list" []
    require (matches ordered actual expected)
    if d.kind == "library" then expect_lookups expected else give tt

  -- an error with the status, without output, that has a domain
  abbrev pub is_domain_error : ℕ → Completed → Bool
  is_domain_error status c =
      is_status status c.returncode && (is_empty c.stdout && has_text "error domain=" c.stderr)

  unfoldable pub ref_lookups : Fixture → Script S (Unit {0})
  ref_lookups f = do
    found ← success exec d "remote-ref-query" ("remote-z-first" ∷ app_ref f ∷ [])
    require (found == app_ref f)
    result ← call exec d "remote-ref-query" ("remote-z-first" ∷ missing_ref f ∷ [])
    require (is_domain_error 5 result)

  unfoldable pub cleared_title : String → Script S (Unit {0})
  cleared_title url = do
    output ← success exec d "remote-clear-title" ("remote-z-first" ∷ [])
    expect_remotes true (
        record {
          name = "remote-z-first";
          url = url <> "/changed-location";
          title = none;
          priority = "30";
        }
        ∷ row "remote-a-second" (url <> "/") "Second remote title" "20"
        ∷ [])

  unfoldable pub deleted_lookup : String → Script S (Unit {0})
  deleted_lookup url = do
    result ← call exec d "remote-query" ("remote-z-first" ∷ [])
    require (is_domain_error 1 result)
    expect_remotes true (row "remote-a-second" (url <> "/") "Second remote title" "20" ∷ [])

  abbrev pub edit : String → String → String → Script S String
  edit url title priority =
      success exec d "remote-edit" ("remote-z-first" ∷ url ∷ title ∷ priority ∷ [])

  -- from the lowering of the first remote's priority
  unfoldable pub edited_remotes : String → Fixture → Script S (Unit {0})
  unfolding ref_lookups
  edited_remotes url f =
      let second = row "remote-a-second" (url <> "/") "Second remote title" "20" in
      do
        lowered ← edit url "First remote title" "10"
        expect_remotes true (second ∷ row "remote-z-first" url "First remote title" "10" ∷ [])
        if d.kind == "library" then ref_lookups f else give tt
        restored ← edit url "First remote title" "30"
        expect_remotes true (row "remote-z-first" url "First remote title" "30" ∷ second ∷ [])
        moved ← edit (url <> "/changed-location") "Revised remote title" "30"
        expect_remotes true (
            row "remote-z-first" (url <> "/changed-location") "Revised remote title" "30"
            ∷ second
            ∷ [])

  -- from the clearing of the title
  unfoldable pub removed_remotes : String → Script S (Unit {0})
  unfolding cleared_title deleted_lookup
  removed_remotes url = do
    if d.kind == "library" then cleared_title url else give tt
    output ← success exec d "remote-delete" ("remote-z-first" ∷ [])
    expect_remotes true (row "remote-a-second" (url <> "/") "Second remote title" "20" ∷ [])
    if d.kind == "library" then deleted_lookup url else give tt

  unfoldable pub created_remotes : String → Script S (Unit {0})
  created_remotes url =
      let first = row "remote-z-first" url "First remote title" "20" in
      let second = row "remote-a-second" (url <> "/") "Second remote title" "20" in
      do
        added ←
            success exec d "remote-create"
              ("remote-z-first" ∷ url ∷ "First remote title" ∷ "20" ∷ [])
        expect_remotes true (first ∷ [])
        other_added ←
            success exec d "remote-create"
              ("remote-a-second" ∷ (url <> "/") ∷ "Second remote title" ∷ "20" ∷ [])
        expect_remotes false (first ∷ second ∷ [])

  unfoldable pub remote_configuration : String → Fixture → Script S (Unit {0})
  unfolding created_remotes edited_remotes removed_remotes
  remote_configuration url f = do
    set_version "A"
    expect_remotes true []
    created_remotes url
    edited_remotes url f
    removed_remotes url

  -- `assert title is not None`, and the call
  unfoldable pub create : Option String → RemoteRow → Script S String
  create none r = raise uncaught
  create (some title) r = success exec d "remote-create" (r.name ∷ r.url ∷ title ∷ r.priority ∷ [])

  unfoldable pub create_all : List RemoteRow → Script S (Unit {0})
  unfolding create
  create_all [] = give tt
  create_all (r ∷ rs) = do output ← create r.title r; create_all rs

  unfoldable pub remote_priority_order : String → Script S (Unit {0})
  unfolding create_all
  remote_priority_order url =
      let late = row "remote-z-first" url "Earlier tied remote" "20" in
      let early = row "remote-a-second" url "Later tied remote" "20" in
      let low = row "remote-low" url "Lower priority remote" "10" in
      do
        expect_remotes true []
        create_all (late ∷ early ∷ low ∷ [])
        expect_remotes true (early ∷ late ∷ low ∷ [])
