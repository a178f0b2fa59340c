-- ===== src/Library.antt =====
-- library_features.py: which public functions the selected library has, and what a scenario lacks.
-- Compiling a probe is a parameter: the status that the compiler returns for a name and a body.
pub mod Laws
use Prim.Native.String.{◌++◌ as ◌<>◌}
use flatpak_blackbox_tests.Base.{
  ℕ, String, Bool, true, false, not, ◌&&◌, Option, none, some, List, [], ◌∷◌, if◌then◌else◌,
  contains, eqb, map, keep,
}
use flatpak_blackbox_tests.Base.Int.{ℤ, pos, negsuc}
use flatpak_blackbox_tests.Base.Dict.{Dict, lookup}
use flatpak_blackbox_tests.Json.Value.{value_error, Result, ok, err}

pub record LibraryFeature : Type 0 where
  pub name : String
  pub declaration : String
  pub behaviors : List String

-- `FEATURES`
abbrev pub features : List LibraryFeature
features =
    record {
      name = "flatpak_transaction_progress_get_bytes_per_second";
      declaration =
          "guint64 (*volatile blackbox_probe) (FlatpakTransactionProgress *) = flatpak_transaction_progress_get_bytes_per_second;";
      behaviors = "transaction.rate" ∷ [];
    }
    ∷ record {
      name = "flatpak_user_data_delete";
      declaration =
          "gboolean (*volatile blackbox_probe) (const char *, GCancellable *, GError **) = flatpak_user_data_delete;";
      behaviors = "library.user-data.delete" ∷ [];
    }
    ∷ []

-- `returncode == 0`; a code is negative after a signal
abbrev pub is_success : ℤ → Bool
is_success (pos n) = eqb n 0
is_success (negsuc n) = false

module _ (compile_probe : String → String → ℤ) where
  abbrev pub compiles : LibraryFeature → Bool
  compiles f =
      is_success (compile_probe f.name (f.declaration <> "\nreturn blackbox_probe == NULL;"))

  abbrev pub probe_each : List LibraryFeature → Dict Bool
  probe_each [] = []
  probe_each (f ∷ fs) = (f.name, compiles f) ∷ probe_each fs

  -- The baseline must compile before a probe counts.
  unfoldable pub probe_features : Result (Dict Bool)
  probe_features =
      if is_success (compile_probe "baseline" "return 0;")
      then ok (probe_each features)
      else err (value_error "library API probe baseline did not compile")

-- `available.get(name, False)`
abbrev pub is_available : String → Dict Bool → Bool
is_available name available = elim (lookup name available) [ none ↦ false | some b ↦ b ]

unfoldable pub missing_apis : String → Dict Bool → List String
missing_apis behavior available =
    map (λ f. f.name)
      (keep (λ f. contains behavior f.behaviors && not (is_available f.name available)) features)
