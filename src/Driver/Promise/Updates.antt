-- ===== src/Driver/Promise/Updates.antt =====
-- The updates of the standard scenarios return against a Flatpak that behaves as documented.
use flatpak_blackbox_tests.Base.{
  String, Bool, true, false, some, List, [], ◌∷◌, any, map, length, ◌≡◌, refl, ap, ◌∙◌, inr,
  ends_with,
}
use flatpak_blackbox_tests.Driver.{Reply, Repository, World, Driver}
use flatpak_blackbox_tests.Driver.Calls.{request_of, is_positive, success}
use flatpak_blackbox_tests.Driver.Scenario.{
  Fixture, app_ref, assert_installed_version, drop_requests, is_restored, failing_update, retry,
  updated,
}
use flatpak_blackbox_tests.Driver.Promise.Requests.{
  any-append-map, drop-append, restored_request, blocked_request,
}
use flatpak_blackbox_tests.Driver.Promise.{Installation, is_done, Flatpak}
use flatpak_blackbox_tests.Driver.Promise.Returns.{
  Goes, goes, sequence, given, require-Goes, answer_map, call-Goes,
}
use flatpak_blackbox_tests.Driver.Promise.Steps.{At, success-At, installed-At}
use flatpak_blackbox_tests.Driver.Promise.Installs.{
  with_app, serving, Listed, first_lem, app_of, remote_of, version-Goes, failing-Goes,
}

module _ {S : Type 0} (fold : String → String) (exec : List String → Repository → S → Reply S)
    (d : Driver) (f : Fixture) (view : S → Installation) (flatpak : Flatpak fold exec d f view)
    (listed : Listed f) where
  abbrev Is : Installation → Repository → World S → Type 0
  Is = At fold exec d f view

  pub second_lem :
      (r : Repository)
      → Goes
          (Is (with_app "B") r)
          (assert_installed_version fold exec d f "B")
          (λ u. Is (with_app "B") r)
  second_lem r =
      installed-At fold exec d f view flatpak "B" listed.commit_b (with_app "B") r (inr refl)
        listed.second refl

  pub failing_update-Goes :
      (b : Bool)
      → Goes
          (Is (with_app "A") (serving "A" b))
          (failing_update fold exec d f)
          (λ u. Is (with_app "A") (serving "B" true))
  unfolding failing_update
  failing_update-Goes b =
      let now = serving "B" true in
      sequence (version-Goes fold exec d f view flatpak listed "B" (with_app "A") (serving "A" b))
        λ u.
          sequence
            (failing-Goes fold exec d f view flatpak listed true (with_app "A") (serving "B" b))
            λ v.
              sequence
                {Q = λ c w.
                  (is_positive c.returncode ≡ true)
                  × ((any (λ r. r.blocked) w.requests ≡ true) × Is (with_app "A") now w)}
                (call-Goes exec d "update" (app_ref f ∷ []) λ w (here, there). rw there (
                  answer_map
                    (flatpak.update_failing "A" now w.target
                      (remote_of fold exec d f view flatpak listed _ _ here)
                      (app_of fold exec d f view flatpak listed _ _ here) (inr refl) refl refl)
                    λ c paths s' (answer, next) records. (
                      answer.0,
                      (
                        any-append-map (λ r. r.blocked) (λ p. ends_with p ".filez") (request_of now)
                            w.requests paths blocked_request answer.1,
                        (next ∙ here, refl),
                      ),
                    )))
                λ c. given λ failed. sequence (require-Goes (is_positive c.returncode) failed) λ x.
                  sequence
                    {Q = λ requests w.
                      (any (λ r. r.blocked) requests ≡ true) × Is (with_app "A") now w}
                    (goes λ w p. p)
                    λ requests. given λ asked.
                      sequence (require-Goes (any (λ r. r.blocked) requests) asked)
                        λ y. first_lem fold exec d f view flatpak listed now

  pub retry-Goes :
      Goes
        (Is (with_app "A") (serving "B" true))
        (retry fold exec d f)
        (λ u. Is (with_app "B") (serving "B" false))
  unfolding retry success
  retry-Goes =
      let now = serving "B" false in
      sequence
        (failing-Goes fold exec d f view flatpak listed false (with_app "A") (serving "B" true))
        λ u.
          sequence {Q = λ before w. (w.requests ≡ before) × Is (with_app "A") now w}
            (goes λ w p. (refl, p))
            λ before.
              sequence
                {Q = λ output w.
                  (any is_restored (drop_requests (length before) w.requests) ≡ true)
                  × Is (with_app "B") now w}
                (sequence
                  {Q = λ c w.
                    (is_done c ≡ true)
                    × ((any is_restored (drop_requests (length before) w.requests) ≡ true)
                        × Is (with_app "B") now w)}
                  (call-Goes exec d "update" (app_ref f ∷ []) λ w (same, (here, there)).
                    rw (there, same)
                      (answer_map
                        (flatpak.update "A" now w.target
                          (remote_of fold exec d f view flatpak listed _ _ here)
                          (app_of fold exec d f view flatpak listed _ _ here) (inr refl) refl)
                        λ c paths s' (answer, next) records. (
                          answer.0,
                          (
                            rw (drop-append before (map (request_of now) paths)) (
                                any-append-map is_restored (λ p. ends_with p ".filez")
                                  (request_of now) [] paths restored_request (answer.1 refl)),
                            (
                              next ∙ ap (λ (i : Installation). record i { app = some "B" }) here,
                              refl,
                            ),
                          ),
                        )))
                  λ c. given λ done. sequence (require-Goes (is_done c) done) λ x. goes λ w p. p)
                λ output.
                  sequence
                    {Q = λ after w.
                      (any is_restored (drop_requests (length before) after) ≡ true)
                      × Is (with_app "B") now w}
                    (goes λ w p. p)
                    λ after. given λ asked.
                      sequence
                        (require-Goes (any is_restored (drop_requests (length before) after)) asked)
                        λ x. second_lem now

  pub updated-Goes :
      (b : Bool)
      → Goes
          (Is (with_app "A") (serving "A" b))
          (updated fold exec d f)
          (λ u. Is (with_app "B") (serving "B" false))
  unfolding updated
  updated-Goes b =
      let now = serving "B" false in
      sequence (version-Goes fold exec d f view flatpak listed "B" (with_app "A") (serving "A" b))
        λ u.
          sequence
            (failing-Goes fold exec d f view flatpak listed false (with_app "A") (serving "B" b))
            λ v.
              sequence
                (success-At fold exec d f view "update" (app_ref f ∷ []) (with_app "A")
                  (with_app "B") now (λ c. is_done c ≡ true) (λ out. Unit)
                  (λ c answer. (answer, tt))
                  λ s here.
                    answer_map
                      (flatpak.update "A" now s
                        (remote_of fold exec d f view flatpak listed _ _ here)
                        (app_of fold exec d f view flatpak listed _ _ here) (inr refl) refl)
                      λ c paths s' (answer, next). (
                        answer.0,
                        next ∙ ap (λ (i : Installation). record i { app = some "B" }) here,
                      ))
                λ output. given λ x. second_lem now
