-- ===== src/Driver/Promise/Installs.antt =====
-- The scenarios that install, and that must not update, return against a Flatpak that behaves as documented.
use Prim.Native.String.{◌++◌ as ◌<>◌}
use flatpak_blackbox_tests.Base.{
  String, Bool, true, false, none, some, List, [], ◌∷◌, ◌==◌, ◌≡◌, refl, ap, ◌∙◌, inl, inr,
  is_empty, Bool-cases,
}
use flatpak_blackbox_tests.Base.Dict.{lookup}
use flatpak_blackbox_tests.Base.Words.{has_text}
use flatpak_blackbox_tests.Driver.{Reply, Repository, World, Driver, set_version, set_failing}
use flatpak_blackbox_tests.Driver.Scenario.{
  Fixture, app_ref, missing_ref, assert_installed_version, missing_install, absent_ref, noop_update,
  repeated_install,
}
use flatpak_blackbox_tests.Driver.Promise.{Installation, is_done, Flatpak}
use flatpak_blackbox_tests.Driver.Promise.Returns.{
  Goes, goes, sequence, given, require-Goes, if_true, if_false, answer_map,
}
use flatpak_blackbox_tests.Driver.Promise.Steps.{
  At, same_view, call-At, success-At, expect_error-At, installed-At,
}

abbrev pub empty : Installation
empty = record { remote = false; app = none; runtime = false }

abbrev pub configured : Installation
configured = record { remote = true; app = none; runtime = false }

abbrev pub with_app : String → Installation
with_app v = record { remote = true; app = some v; runtime = true }

abbrev pub gone : Installation
gone = record { remote = true; app = none; runtime = true }

abbrev pub serving : String → Bool → Repository
serving v b = record { version = v; fail_payloads = b }

-- What a scenario leaves behind.
pub data Leaves : String → Installation → Type 0 where
  missing_install_configured : Leaves "missing-install" configured
  absent_ref_first : Leaves "absent-ref" (with_app "A")
  noop_update_first : Leaves "noop-update" (with_app "A")
  repeated_install_first : Leaves "repeated-install" (with_app "A")
  failed_update_first : Leaves "failed-update" (with_app "A")
  retry_update_second : Leaves "retry-update" (with_app "B")
  lifecycle_gone : Leaves "lifecycle" gone

-- the commits of both versions
pub record Listed (f : Fixture) : Type 0 where
  pub commit_a : String
  pub commit_b : String
  pub first : lookup "A" f.commits ≡ some commit_a
  pub second : lookup "B" f.commits ≡ some commit_b

module _ {S : Type 0} (fold : String → String) (exec : List String → Repository → S → Reply S)
    (d : Driver) (f : Fixture) (view : S → Installation) (flatpak : Flatpak fold exec d f view)
    (listed : Listed f) where
  abbrev Is : Installation → Repository → World S → Type 0
  Is = At fold exec d f view

  pub first_lem :
      (r : Repository)
      → Goes
          (Is (with_app "A") r)
          (assert_installed_version fold exec d f "A")
          (λ u. Is (with_app "A") r)
  first_lem r =
      installed-At fold exec d f view flatpak "A" listed.commit_a (with_app "A") r (inl refl)
        listed.first refl

  pub app_of : (i j : Installation) → i ≡ j → i.app ≡ j.app
  app_of i j e = ap (λ i. i.app) e

  pub remote_of : (i j : Installation) → i ≡ j → i.remote ≡ j.remote
  remote_of i j e = ap (λ i. i.remote) e

  pub version-Goes :
      (v : String) (i : Installation) (r : Repository)
      → Goes (Is i r) (set_version v) (λ u. Is i (serving v r.fail_payloads))
  version-Goes v i r =
      goes λ w (here, there). (here, ap (λ (r : Repository). record r { version = v }) there)

  pub failing-Goes :
      (b : Bool) (i : Installation) (r : Repository)
      → Goes (Is i r) (set_failing b) (λ u. Is i (serving r.version b))
  failing-Goes b i r =
      goes λ w (here, there). (here, ap (λ (r : Repository). record r { fail_payloads = b }) there)

  pub missing_install-Goes :
      (r : Repository)
      → Goes (Is configured r) (missing_install fold exec d f) (λ u. Is configured r)
  unfolding missing_install
  missing_install-Goes r =
      sequence
        (expect_error-At fold exec d f view "install" (missing_ref f) "REF_NOT_FOUND" configured r
          λ s here. flatpak.install_missing r s (remote_of _ _ here))
        λ u.
          sequence
            (success-At fold exec d f view "list-refs" ("" ∷ []) configured configured r _
              (λ out. is_empty out ≡ true) (λ c answer. answer)
              λ s here.
                same_view fold exec d f view
                  (flatpak.list_refs r s (app_of _ _ here) (ap (λ i. i.runtime) here)) here)
            λ refs. given λ none_listed. require-Goes (is_empty refs) none_listed

  pub absent_ref-Goes :
      (r : Repository)
      → Goes (Is (with_app "A") r) (absent_ref fold exec d f) (λ u. Is (with_app "A") r)
  unfolding absent_ref
  absent_ref-Goes r =
      sequence
        (expect_error-At fold exec d f view "query" (missing_ref f) "NOT_INSTALLED" (with_app "A") r
          λ s here. flatpak.query_missing r s)
        λ u. sequence (first_lem r) λ v.
          sequence
            (expect_error-At fold exec d f view "uninstall" (missing_ref f) "NOT_INSTALLED"
              (with_app "A") r λ s here. flatpak.uninstall_missing r s)
            λ x. first_lem r

  pub noop_update-Goes :
      (b : Bool)
      → b ≡ false
      → Goes
          (Is (with_app "A") (serving "A" b))
          (noop_update fold exec d f)
          (λ u. Is (with_app "A") (serving "A" b))
  unfolding noop_update
  noop_update-Goes b served =
      sequence
        (success-At fold exec d f view "update" (app_ref f ∷ []) (with_app "A") (with_app "A")
          (serving "A" b) (λ c. is_done c ≡ true) (λ out. Unit) (λ c answer. (answer, tt))
          λ s here.
            answer_map
              (flatpak.update "A" (serving "A" b) s (remote_of _ _ here) (app_of _ _ here)
                (inl refl) served)
              λ c paths s' (answer, next).
                (answer.0, next ∙ ap (λ (i : Installation). record i { app = some "A" }) here))
        λ output. given λ u. first_lem (serving "A" b)

  pub repeated_install-Goes :
      (b : Bool)
      → Goes
          (Is (with_app "A") (serving "A" b))
          (repeated_install fold exec d f)
          (λ u. Is (with_app "A") (serving "B" b))
  unfolding repeated_install
  repeated_install-Goes b =
      let now = serving "B" b in
      sequence (version-Goes "B" (with_app "A") (serving "A" b)) λ u.
        sequence
          (elim (Bool-cases (d.kind == "library")) [
            | inl library ↦ if_true _ _ _ library (
                expect_error-At fold exec d f view "install" (app_ref f) "ALREADY_INSTALLED"
                  (with_app "A") now
                  λ s here.
                    flatpak.reinstall_library "A" now s (remote_of _ _ here) (app_of _ _ here)
                      library)
            | inr cli ↦ if_false _ _ _ cli (
                sequence
                  (call-At fold exec d f view "install" (app_ref f ∷ []) (with_app "A")
                    (with_app "A") now _
                    λ s here.
                      same_view fold exec d f view
                        (flatpak.reinstall_cli "A" now s (remote_of _ _ here) (app_of _ _ here) cli)
                        here)
                  λ c. given λ (done, shown). sequence (require-Goes (is_done c) done) λ v.
                    require-Goes (has_text "already installed" (fold (c.stdout <> c.stderr))) shown)
          ])
          λ v. first_lem now
