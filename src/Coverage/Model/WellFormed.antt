-- ===== src/Coverage/Model/WellFormed.antt =====
-- What a coverage model must satisfy: its references resolve, to entries of the right kind.
use flatpak_blackbox_tests.Base.{
  String, Bool, true, false, some, List, [], ◌∷◌, contains, is_unique, is_some, ◌≡◌, All,
}
use flatpak_blackbox_tests.Base.Dict.{Dict, lookup}
use flatpak_blackbox_tests.Coverage.Records.{
  Surface, Requirement, Behavior, CaseIdentity, CaseDict, case_lookup,
}
use flatpak_blackbox_tests.Coverage.Model.{
  Mapped, CoverageModel, is_kind_of, allowed_kinds, has_kind,
}

-- The surface is there, and its kind passes the test.
abbrev pub HasSurface : Dict Surface → (String → Bool) → String → Type 0
HasSurface surfaces test identifier =
    (s : Surface) × (lookup identifier surfaces ≡ some s) × (test s.kind ≡ true)

-- The requirement is there, and a case of this driver and profile may cover it.
abbrev pub IsCoverable : Dict Requirement → CaseIdentity → String → Type 0
IsCoverable requirements key identifier =
    (r : Requirement) × (lookup identifier requirements ≡ some r)
    × (r.interface ≡ key.driver)
    × (contains r.profile ("any" ∷ key.profile ∷ []) ≡ true)

-- The surfaces of the requirements `ids` are not `identifier`.
abbrev pub IsNotRequired : Dict Requirement → List String → String → Type 0
IsNotRequired requirements ids identifier =
    All
      (λ i.
        (r : Requirement) × (lookup i requirements ≡ some r)
        × (contains identifier r.surfaces ≡ false))
      ids

pub record IsEquivalent (surfaces : Dict Surface) (requirements : Dict Requirement)
    (key : CaseIdentity) (entry : Mapped) (identifier : String) : Type 0 where
  pub on_cli : key.driver ≡ "cli"
  pub is_option : has_kind surfaces ("cli-option" ∷ []) identifier ≡ true
  pub not_asserted : contains identifier entry.surface_assertions ≡ false
  pub not_required : IsNotRequired requirements entry.requirements identifier

pub record IsMapped (surfaces : Dict Surface) (requirements : Dict Requirement)
    (cases : CaseDict Behavior) (key : CaseIdentity) (entry : Mapped) : Type 0 where
  pub known : is_some (case_lookup key cases) ≡ true
  pub distinct : is_unique entry.requirements ≡ true
  pub coverable : All (IsCoverable requirements key) entry.requirements
  pub asserted :
      All (λ i. has_kind surfaces (allowed_kinds key.driver) i ≡ true) entry.surface_assertions
  pub equivalent : All (IsEquivalent surfaces requirements key entry) entry.equivalent_options

pub record IsWellFormed (m : CoverageModel) : Type 0 where
  pub references :
      (i : String) (r : Requirement)
      → lookup i m.requirements ≡ some r
      → All (HasSurface m.surfaces (is_kind_of r.interface)) r.surfaces
  pub mapped :
      All
        (λ (e : CaseIdentity × Mapped). IsMapped m.surfaces m.requirements m.cases e.0 e.1)
        m.mapping
