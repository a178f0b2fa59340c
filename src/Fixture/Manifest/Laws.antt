-- ===== src/Fixture/Manifest/Laws.antt =====
-- What a checked manifest has.
use flatpak_blackbox_tests.Base.{
  ℕ, ◌≤◌, String, true, false, some, List, length, leb, ◌≡◌, sym, ◌∙◌, subst, arith,
}
use flatpak_blackbox_tests.Base.Int.{pos}
use flatpak_blackbox_tests.Base.Dict.{Dict, has, lookup}
use flatpak_blackbox_tests.Json.Value.{
  Value, int, FieldPath, field, ok, >>=-eq-ok, then-eq-ok, guard-then, ok_injective,
}
use flatpak_blackbox_tests.Json.Validate.{
  object_map, string, strings, string_map, required, schema_one,
}
use flatpak_blackbox_tests.Typed.Shape.{schema_one_iff, required_iff}
use flatpak_blackbox_tests.Fixture.Plan.Laws.{group_fields}
use flatpak_blackbox_tests.Fixture.Manifest.{fixture_steps, parse_fixture, parse_transactions}

two_apps : (n : ℕ) → leb 2 n ≡ true → 2 ≤ n
two_apps n h = ground arith

-- What the manifest's data has, by the parser's checks.
pub record IsManifest (d : Dict Value) (path : FieldPath) : Type 0 where
  pub schema : lookup "schema" d ≡ some (int (pos 1))
  pub commits :
      (raw : Value) × (m : Dict String) × (lookup "commits" d ≡ some raw)
      × (string_map raw (field path "commits") true ≡ ok m)
      × (has "A" m ≡ true)
      × (has "B" m ≡ true)

-- A manifest that is returned has exactly the fields of its data, which is an object with schema 1 and
-- commits, all of them nonempty texts, for the versions A and B.
pub parse_fixture-IsManifest :
    (value : Value) (path : FieldPath) (r : Dict Value)
    → parse_fixture value path ≡ ok r
    → (d : Dict Value) × (object_map value path ≡ ok d)
      × ((k : String) → has k r ≡ has k d)
      × IsManifest d path
unfolding parse_fixture
parse_fixture-IsManifest value path r h =
    let (d, e, h₁) = >>=-eq-ok (object_map value path) _ h in
    let (one, h₂) = then-eq-ok (schema_one d path) _ h₁ in
    let (raw, found, h₃) = >>=-eq-ok (required d "commits" path) _ h₂ in
    let (m, read, h₄) = >>=-eq-ok (string_map raw (field path "commits") true) _ h₃ in
    let (a, h₅) = guard-then (has "A" m) _ _ h₄ in
    let (b, h₆) = guard-then (has "B" m) _ _ h₅ in
    let (v, _, h₇) = >>=-eq-ok (required d "arch" path) _ h₆ in
    let (arch, _, h₈) = >>=-eq-ok (string v (field path "arch") true) _ h₇ in
    let (d', e', fields) = group_fields (fixture_steps arch) value path r h₈ in
    (
      d',
      e',
      fields,
      subst (λ d. IsManifest d path) (ok_injective (sym e ∙ e'))
          (record {
            schema = (schema_one_iff d path).0 one;
            commits = (raw, m, (required_iff d "commits" path raw).0 found, read, a, b);
          }),
    )

-- If transactions are returned, then the data has a list of at least two apps.
pub parse_transactions-apps :
    (value : Value) (path : FieldPath) (r : Dict Value)
    → parse_transactions value path ≡ ok r
    → (d : Dict Value) × (raw : Value) × (apps : List String) × (object_map value path ≡ ok d)
      × (lookup "apps" d ≡ some raw)
      × (strings raw (field path "apps") false ≡ ok apps)
      × (2 ≤ length apps)
unfolding parse_transactions
parse_transactions-apps value path r h =
    let (d, e, h₁) = >>=-eq-ok (object_map value path) _ h in
    let (raw, found, h₂) = >>=-eq-ok (required d "apps" path) _ h₁ in
    let (apps, read, h₃) = >>=-eq-ok (strings raw (field path "apps") false) _ h₂ in
    let (enough, _) = guard-then (leb 2 (length apps)) _ _ h₃ in
    (d, raw, apps, e, (required_iff d "apps" path raw).0 found, read, two_apps (length apps) enough)
