-- ===== src/Examples/Library.antt =====
-- A compiler that accepts every probe but the last.
use flatpak_blackbox_tests.Base.{
  String, Bool, true, false, [], ◌∷◌, ◌==◌, if◌then◌else◌, contains, ◌≡◌, ◌↔◌, refl,
}
use flatpak_blackbox_tests.Base.Int.{ℤ, pos}
use flatpak_blackbox_tests.Base.Dict.{Dict}
use flatpak_blackbox_tests.Json.Value.{ok}
use flatpak_blackbox_tests.Library.{probe_features, missing_apis}
use flatpak_blackbox_tests.Library.Laws.{Needs, missing_apis-probe_features}

abbrev compile_probe : String → String → ℤ
compile_probe name body = if name == "flatpak_user_data_delete" then pos 1 else pos 0

abbrev available : Dict Bool
available =
    ("flatpak_transaction_progress_get_bytes_per_second", true)
    ∷ ("flatpak_user_data_delete", false)
    ∷ []

probed : probe_features compile_probe ≡ ok available
unfolding probe_features
probed = refl

missing_apis-probe_features_example :
    (contains "flatpak_user_data_delete" (missing_apis "library.user-data.delete" available) ≡ true)
    ↔ ((body : String) × Needs "library.user-data.delete" "flatpak_user_data_delete" body
        × (¬ (compile_probe "flatpak_user_data_delete" body ≡ pos 0)))
missing_apis-probe_features_example =
    missing_apis-probe_features compile_probe "library.user-data.delete" "flatpak_user_data_delete"
      available probed
