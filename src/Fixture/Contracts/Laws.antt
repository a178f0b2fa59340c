-- ===== src/Fixture/Contracts/Laws.antt =====
-- What the transaction contracts of a checked manifest have.
use flatpak_blackbox_tests.Base.{
  String, true, some, List, [], ◌∷◌, ◌≡◌, refl, subst, All, Option-cases, inl, inr,
}
use flatpak_blackbox_tests.Base.Dict.{Dict, lookup, has}
use flatpak_blackbox_tests.Json.Value.{
  Value, text, FieldPath, field, ok, >>=-eq-ok, then-eq-ok, ok_injective,
}
use flatpak_blackbox_tests.Json.Validate.{object_map, string, string_map, required}
use flatpak_blackbox_tests.Fixture.Plan.{known}
use flatpak_blackbox_tests.Fixture.Contracts.{
  aliases, versions, required_in, maps_of, check_aliases, values_of, check_refs, check_versions,
  Contracts, contracts_dict, parse_contracts,
}

required_in-ok {ℓ} :
    {A : Type ℓ} (d : Dict A) (key : String) (path : FieldPath) (a : A)
    → required_in d key path ≡ ok a
    → lookup key d ≡ some a
unfolding required_in
required_in-ok d key path a h = elim (Option-cases (lookup key d)) [
  | inl e ↦ absurd (cc (rw (e, required_in) at h))
  | inr (b, e) ↦ cc (rw (e, required_in) at h, e)
]

-- The keys are in the dictionary.
abbrev pub HasAll : Dict String → List String → Type 0
HasAll d keys = All (λ k. has k d ≡ true) keys

has-lookup {ℓ} :
    {A : Type ℓ} (d : Dict A) (k : String) (a : A) → lookup k d ≡ some a → has k d ≡ true
has-lookup d k a h = rw h refl

check_aliases-ok :
    (names : List String) (refs : Dict String) (path : FieldPath)
    → check_aliases names refs path ≡ ok tt
    → HasAll refs names
unfolding check_aliases
check_aliases-ok [] refs path h = tt
check_aliases-ok (name ∷ names) refs path h =
    let (ref, there, h₁) = >>=-eq-ok (required_in refs name path) _ h in
    let (s, filled, h₂) = >>=-eq-ok (string (text ref) (field path name) true) _ h₁ in
    (
      has-lookup refs name ref (required_in-ok refs name path ref there),
      check_aliases-ok names refs path h₂,
    )

check_refs-ok :
    (refs : List String) (commits : Dict String) (path : FieldPath)
    → check_refs refs commits path ≡ ok tt
    → HasAll commits refs
unfolding check_refs
check_refs-ok [] commits path h = tt
check_refs-ok (ref ∷ refs) commits path h =
    let (c, there, h₁) = >>=-eq-ok (required_in commits ref path) _ h in
    (
      has-lookup commits ref c (required_in-ok commits ref path c there),
      check_refs-ok refs commits path h₁,
    )

-- A version has a repository, and a commit there for each of the refs.
abbrev pub IsPublished : Dict String → Dict (Dict String) → List String → String → Type 0
IsPublished repos commits refs version =
    (has version repos ≡ true)
    × ((of_version : Dict String) × (lookup version commits ≡ some of_version)
        × HasAll of_version refs)

check_versions-ok :
    (names : List String) (repos : Dict String) (commits : Dict (Dict String)) (refs : List String)
    (path : FieldPath)
    → check_versions names repos commits refs path ≡ ok tt
    → All (IsPublished repos commits refs) names
unfolding check_versions
check_versions-ok [] repos commits refs path h = tt
check_versions-ok (name ∷ names) repos commits refs path h =
    let (repo, there, h₁) = >>=-eq-ok (required_in repos name (field path "repos")) _ h in
    let (c, found, h₂) = >>=-eq-ok (required_in commits name (field path "commits")) _ h₁ in
    let (all_there, h₃) = then-eq-ok (check_refs refs c (field (field path "commits") name)) _ h₂ in
    (
      (
        has-lookup repos name repo (required_in-ok repos name (field path "repos") repo there),
        (
          c,
          required_in-ok commits name (field path "commits") c found,
          check_refs-ok refs c (field (field path "commits") name) all_there,
        ),
      ),
      check_versions-ok names repos commits refs path h₃,
    )

abbrev pub IsComplete : Contracts → Type 0
IsComplete c =
    HasAll c.refs aliases × All (IsPublished c.repos c.commits (values_of c.refs)) versions

-- The contracts that are returned have every alias of a ref; and every version has a repository and a
-- commit for each of the refs.
pub parse_contracts-IsComplete :
    (value : Value) (path : FieldPath) (c : Contracts)
    → parse_contracts value path ≡ ok c
    → IsComplete c
unfolding parse_contracts
parse_contracts-IsComplete value path c h =
    let (d, _, h₁) = >>=-eq-ok (object_map value path) _ h in
    let (v₁, _, h₂) = >>=-eq-ok (required d "repos" path) _ h₁ in
    let (repos, _, h₃) = >>=-eq-ok (string_map v₁ (field path "repos") true) _ h₂ in
    let (v₂, _, h₄) = >>=-eq-ok (required d "refs" path) _ h₃ in
    let (refs, _, h₅) = >>=-eq-ok (string_map v₂ (field path "refs") true) _ h₄ in
    let (v₃, _, h₆) = >>=-eq-ok (required d "commits" path) _ h₅ in
    let (by_version, _, h₇) = >>=-eq-ok (object_map v₃ (field path "commits")) _ h₆ in
    let (commits, _, h₈) = >>=-eq-ok (maps_of by_version (field path "commits")) _ h₇ in
    let (named, h₉) = then-eq-ok (check_aliases aliases refs (field path "refs")) _ h₈ in
    let (published, h₁₀) =
      then-eq-ok (check_versions versions repos commits (values_of refs) path) _ h₉ in
    let result : Contracts = record { repos = repos; refs = refs; commits = commits } in
    let (_, h₁₁) = then-eq-ok (known d (contracts_dict result) path) _ h₁₀ in
    let same : result ≡ c = ok_injective h₁₁ in
    subst IsComplete same (
      check_aliases-ok aliases refs (field path "refs") named,
      check_versions-ok versions repos commits (values_of refs) path published,
    )
