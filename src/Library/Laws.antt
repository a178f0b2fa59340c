-- ===== src/Library/Laws.antt =====
-- A scenario lacks exactly the functions that it needs and whose probes did not compile.
use flatpak_blackbox_tests.Base.{
  String, Bool, true, false, not, ◌&&◌, ◌||◌, [], ◌∷◌, ◌==◌, contains, map, keep, ◌≡◌, ◌↔◌, refl,
  sym, ap, ◌∙◌, subst, arith, Bool-cases, inl, inr, eq_iff, and_true, or_true,
}
use flatpak_blackbox_tests.Base.Int.{ℤ, pos, negsuc}
use flatpak_blackbox_tests.Base.Dict.{Dict}
use flatpak_blackbox_tests.Json.Value.{ok, ok_injective}
use flatpak_blackbox_tests.Library.{
  LibraryFeature, features, is_success, is_available, probe_each, probe_features, missing_apis,
}

abbrev pub rate_name : String
rate_name = "flatpak_transaction_progress_get_bytes_per_second"

abbrev pub rate_body : String
rate_body =
    "guint64 (*volatile blackbox_probe) (FlatpakTransactionProgress *) = flatpak_transaction_progress_get_bytes_per_second;\nreturn blackbox_probe == NULL;"

abbrev pub delete_name : String
delete_name = "flatpak_user_data_delete"

abbrev pub delete_body : String
delete_body =
    "gboolean (*volatile blackbox_probe) (const char *, GCancellable *, GError **) = flatpak_user_data_delete;\nreturn blackbox_probe == NULL;"

-- The public functions that behaviors need, each with the body of its probe.
pub data Needs : String → String → String → Type 0 where
  rate : Needs "transaction.rate" rate_name rate_body
  delete_data : Needs "library.user-data.delete" delete_name delete_body

is_success_iff : (z : ℤ) → (is_success z ≡ true) ↔ (z ≡ pos 0)
is_success_iff (pos n) = (
  λ h. let zero_code : n ≡ 0 = ground arith in ap pos zero_code,
  λ e. let zero_code : n ≡ 0 = cc e in rw zero_code refl,
)
is_success_iff (negsuc n) = (λ h. absurd (cc h), λ e. absurd (cc e))

contains_kept :
    (p : LibraryFeature → Bool) (api : String) (f g : LibraryFeature)
    → contains api (map (λ f. f.name) (keep p (f ∷ g ∷ [])))
      ≡ (p f && f.name == api || p g && g.name == api)
contains_kept p api f g = elim (Bool-cases (p f)) [
  | inl a ↦ elim (Bool-cases (p g)) [
    | inl b ↦ rw (a, b) (ground arith)
    | inr b ↦ rw (a, b) (ground arith)
  ]
  | inr a ↦ elim (Bool-cases (p g)) [
    | inl b ↦ rw (a, b) (ground arith)
    | inr b ↦ rw (a, b) (ground arith)
  ]
]

module _ (compile_probe : String → String → ℤ) where
  probed_is :
      (available : Dict Bool)
      → probe_features compile_probe ≡ ok available
      → probe_each compile_probe features ≡ available
  unfolding probe_features
  probed_is available h = elim (Bool-cases (is_success (compile_probe "baseline" "return 0;"))) [
    | inr broken ↦ absurd (cc (rw broken at h))
    | inl fine ↦ ok_injective (rw fine at h)
  ]

  fails : String → String → Bool
  fails name body = not (is_success (compile_probe name body))

  missing_is :
      (behavior api : String)
      → contains api (missing_apis behavior (probe_each compile_probe features)) ≡ (
          ((("transaction.rate" == behavior) || false) && fails rate_name rate_body)
            && rate_name == api
          || ((("library.user-data.delete" == behavior) || false) && fails delete_name delete_body)
            && delete_name == api)
  unfolding missing_apis fails
  missing_is behavior api =
      contains_kept
        (λ f.
          contains behavior f.behaviors
          && not (is_available f.name (probe_each compile_probe features)))
        api
        (record {
          name = rate_name;
          declaration =
              "guint64 (*volatile blackbox_probe) (FlatpakTransactionProgress *) = flatpak_transaction_progress_get_bytes_per_second;";
          behaviors = "transaction.rate" ∷ [];
        })
        (record {
          name = delete_name;
          declaration =
              "gboolean (*volatile blackbox_probe) (const char *, GCancellable *, GError **) = flatpak_user_data_delete;";
          behaviors = "library.user-data.delete" ∷ [];
        })

  fails_iff :
      (name body : String) → (fails name body ≡ true) ↔ (¬ (compile_probe name body ≡ pos 0))
  unfolding fails
  fails_iff name body = elim (Bool-cases (is_success (compile_probe name body))) [
    | inl e ↦ (
      λ h. absurd (cc (rw e at h)),
      λ h. absurd (h ((is_success_iff (compile_probe name body)).0 e)),
    )
    | inr e ↦ (
      λ h zero_code. cc (e, (is_success_iff (compile_probe name body)).1 zero_code),
      λ h. rw e refl,
    )
  ]

  one_missing :
      (needed behavior name api body : String)
      → Needs needed name body
      → (((needed == behavior) || false) && fails name body) && name == api ≡ true
      → (b : String) × Needs behavior api b × (¬ (compile_probe api b ≡ pos 0))
  one_missing needed behavior name api body n h =
      let (left, named) = and_true (((needed == behavior) || false) && fails name body) _ h in
      let (wanted, failing) = and_true ((needed == behavior) || false) _ left in
      let same : (needed == behavior) ≡ true = ground (arith, wanted) in
      let at_behavior = (eq_iff needed behavior).0 same in
      let at_api = (eq_iff name api).0 named in
      (
        body,
        subst (λ x. Needs behavior x body) at_api (subst (λ x. Needs x name body) at_behavior n),
        subst (λ x. ¬ (compile_probe x body ≡ pos 0)) at_api ((fails_iff name body).0 failing),
      )

  needed_missing :
      (behavior api body : String)
      → Needs behavior api body
      → ¬ (compile_probe api body ≡ pos 0)
      → contains api (missing_apis behavior (probe_each compile_probe features)) ≡ true
  needed_missing behavior api body rate h =
      missing_is "transaction.rate" rate_name ∙ (rw ((fails_iff rate_name rate_body).1 h) refl)
  needed_missing behavior api body delete_data h =
      missing_is "library.user-data.delete" delete_name
      ∙ (rw ((fails_iff delete_name delete_body).1 h) refl)

  -- After a probing that returns, a behavior misses a function exactly when it needs this function and the compiler did
  -- not end with status 0 on its probe.
  pub missing_apis-probe_features :
      (behavior api : String) (available : Dict Bool)
      → probe_features compile_probe ≡ ok available
      → (contains api (missing_apis behavior available) ≡ true)
        ↔ ((body : String) × Needs behavior api body × (¬ (compile_probe api body ≡ pos 0)))
  missing_apis-probe_features behavior api available h =
      subst
        (λ d.
          (contains api (missing_apis behavior d) ≡ true)
          ↔ ((body : String) × Needs behavior api body × (¬ (compile_probe api body ≡ pos 0))))
        (probed_is available h)
        (
          λ found. elim (or_true _ _ (sym (missing_is behavior api) ∙ found)) [
            | inl e ↦ one_missing "transaction.rate" behavior rate_name api rate_body rate e
            | inr e ↦
                one_missing "library.user-data.delete" behavior delete_name api delete_body
                  delete_data e
          ],
          λ (body, needs, failing). needed_missing behavior api body needs failing,
        )
