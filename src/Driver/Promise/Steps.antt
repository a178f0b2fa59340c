-- ===== src/Driver/Promise/Steps.antt =====
-- The driver's operations on a Flatpak that behaves as documented.
use flatpak_blackbox_tests.Base.{
  String, true, some, List, [], ◌∷◌, ◌==◌, if◌then◌else◌, any, eq_refl, ◌≡◌, refl, sym, ap, ◌∙◌,
  subst,
}
use flatpak_blackbox_tests.Base.Dict.{lookup}
use flatpak_blackbox_tests.Base.Words.{strip, split_words, has_text}
use flatpak_blackbox_tests.Driver.{Completed, Reply, Repository, World, Driver}
use flatpak_blackbox_tests.Driver.Calls.{is_positive, call, success, setup_success}
use flatpak_blackbox_tests.Driver.Checks.{
  is_status, expect_error, expect_library_error, expect_cli_error, query, two_words, is_commit,
  statuses, diagnostics, ref_name,
}
use flatpak_blackbox_tests.Driver.Scenario.{Fixture, app_ref, runtime_ref, assert_installed_version}
use flatpak_blackbox_tests.Driver.Promise.{
  Installation, IsRelease, Answered, IsReported, by_status, by_text, is_done, words_of, Flatpak,
}
use flatpak_blackbox_tests.Driver.Promise.Returns.{
  Goes, goes, sequence, given, require-Goes, entry-Goes, item-Goes, if_true, if_false, answer_map,
  call-Goes,
}

module _ {S : Type 0} (fold : String → String) (exec : List String → Repository → S → Reply S)
    (d : Driver) (f : Fixture) (view : S → Installation) where
  -- a world with this installation and this repository
  abbrev pub At : Installation → Repository → World S → Type 0
  At i r w = (view w.target ≡ i) × (w.repository ≡ r)

  -- What keeps the view keeps the installation.
  pub same_view :
      {operation : String} {arguments : List String} {r : Repository} {s : S} {i : Installation}
      {C : Completed → Type 0}
      → Answered exec d operation arguments r s (λ c paths s'. C c × (view s' ≡ view s))
      → view s ≡ i
      → Answered exec d operation arguments r s (λ c paths s'. C c × (view s' ≡ i))
  same_view a here = answer_map a λ c paths s' (answer, same). (answer, same ∙ here)

  -- A command that answers the same way of every state with this installation.
  pub call-At :
      (operation : String) (arguments : List String) (i j : Installation) (r : Repository)
      (C : Completed → Type 0)
      → ((s : S)
          → view s ≡ i
          → Answered exec d operation arguments r s (λ c paths s'. C c × (view s' ≡ j)))
      → Goes (At i r) (call exec d operation arguments) (λ c w. C c × At j r w)
  call-At operation arguments i j r C h = call-Goes exec d operation arguments λ w (here, there).
      rw there
        (answer_map (h w.target here) λ c paths s' (answer, same) records. (answer, (same, refl)))

  pub success-At :
      (operation : String) (arguments : List String) (i j : Installation) (r : Repository)
      (C : Completed → Type 0) (D : String → Type 0)
      → ((c : Completed) → C c → (is_done c ≡ true) × D (strip c.stdout))
      → ((s : S)
          → view s ≡ i
          → Answered exec d operation arguments r s (λ c paths s'. C c × (view s' ≡ j)))
      → Goes (At i r) (success exec d operation arguments) (λ out w. D out × At j r w)
  unfolding success
  success-At operation arguments i j r C D good h =
      sequence (call-At operation arguments i j r C h) λ c. given λ answer.
        sequence (require-Goes (is_done c) (good c answer).0)
          λ u. goes λ w p. ((good c answer).1, p)

  pub setup_success-At :
      (operation : String) (arguments : List String) (i j : Installation) (r : Repository)
      → ((s : S)
          → view s ≡ i
          → Answered exec d operation arguments r s
              (λ c paths s'. (is_done c ≡ true) × (view s' ≡ j)))
      → Goes (At i r) (setup_success exec d operation arguments) (λ out. At j r)
  unfolding setup_success
  setup_success-At operation arguments i j r h =
      sequence (call-At operation arguments i j r (λ c. is_done c ≡ true) h)
        λ c. given λ answer. if_true (is_done c) _ _ answer (goes λ w p. p)

  two_words-At :
      {P : World S → Type 0} (words : List String) (ref commit : String)
      → words ≡ ref ∷ commit ∷ []
      → Goes P (two_words fold exec d words) (λ found w. (found ≡ (ref, commit)) × P w)
  unfolding two_words
  two_words-At {P} words ref commit e =
      subst
        (λ words. Goes P (two_words fold exec d words) (λ found w. (found ≡ (ref, commit)) × P w))
        (sym e) (goes λ w p. (refl, p))

  pub query-At :
      (ref commit : String) (i : Installation) (r : Repository)
      → ((s : S)
          → view s ≡ i
          → Answered exec d "query" (ref ∷ []) r s (λ c paths s'.
            ((is_done c ≡ true) × (words_of c ≡ ref ∷ commit ∷ [])) × (view s' ≡ view s)))
      → Goes (At i r) (query fold exec d ref (some commit)) (λ actual. At i r)
  unfolding query
  query-At ref commit i r h =
      sequence
        (success-At "query" (ref ∷ []) i i r
          (λ c. (is_done c ≡ true) × (words_of c ≡ ref ∷ commit ∷ []))
          (λ out. split_words out ≡ ref ∷ commit ∷ []) (λ c answer. answer)
          λ s here. same_view (h s here) here)
        λ output. given λ words.
          sequence (two_words-At (split_words output) ref commit words) λ found. given λ pair.
            sequence (require-Goes (found.0 == ref) (rw pair (eq_refl ref))) λ u.
              sequence
                (require-Goes (is_commit fold exec d (some commit) found.1)
                  (rw pair (eq_refl commit)))
                λ v. goes λ w p. p

  reported-At :
      {P : World S → Type 0} (ref error_name : String) (c : Completed)
      → IsReported fold d.kind ref error_name c
      → Goes P
          (if d.kind == "library"
            then expect_library_error fold exec d error_name c
            else expect_cli_error fold exec d ref error_name c)
          (λ u. P)
  unfolding expect_library_error expect_cli_error
  reported-At ref error_name c (by_status n library listed good) = if_true _ _ _ library (
      sequence (entry-Goes (lookup error_name statuses) n listed)
        λ m. given λ same. rw same (require-Goes (is_status n c.returncode) good))
  reported-At ref error_name c (by_text name texts cli failed named said listed shown) =
      if_false _ _ _ cli (
        sequence (require-Goes (is_positive c.returncode) failed) λ u.
          sequence (item-Goes (ref_name ref) name named) λ found. given λ same.
            sequence (require-Goes (has_text found c.stderr) (rw same said)) λ v.
              sequence (entry-Goes (lookup error_name diagnostics) texts listed) λ some_texts.
                given λ same_texts.
                  require-Goes (any (λ t. has_text t (fold c.stderr)) some_texts)
                    (rw same_texts shown))

  pub expect_error-At :
      (operation ref error_name : String) (i : Installation) (r : Repository)
      → ((s : S)
          → view s ≡ i
          → Answered exec d operation
              (ref ∷ [])
              r
              s
              (λ c paths s'. IsReported fold d.kind ref error_name c × (view s' ≡ view s)))
      → Goes (At i r) (expect_error fold exec d operation ref error_name) (λ u. At i r)
  unfolding expect_error
  expect_error-At operation ref error_name i r h =
      sequence
        (call-At operation (ref ∷ []) i i r (IsReported fold d.kind ref error_name)
          λ s here. same_view (h s here) here)
        λ c. given λ reported. reported-At ref error_name c reported

  module _ (flatpak : Flatpak fold exec d f view) where
    pub runtime-At :
        (i : Installation) (r : Repository)
        → i.runtime ≡ true
        → Goes
            (At i r)
            (query fold exec d (runtime_ref f) (some f.runtime_commit))
            (λ actual. At i r)
    runtime-At i r running =
        query-At (runtime_ref f) f.runtime_commit i r
          λ s here. flatpak.query_runtime r s (ap (λ i. i.runtime) here ∙ running)

    -- An app of a release passes the check of its version.
    pub installed-At :
        (v commit : String) (i : Installation) (r : Repository)
        → IsRelease v
        → lookup v f.commits ≡ some commit
        → i ≡ record { remote = true; app = some v; runtime = true }
        → Goes (At i r) (assert_installed_version fold exec d f v) (λ u. At i r)
    unfolding assert_installed_version
    installed-At v commit i r release listed e =
        sequence (entry-Goes (lookup v f.commits) commit listed) λ found. given λ same. rw same (
          sequence
            (query-At (app_ref f) commit i r
              λ s here. flatpak.query_app v commit r s release (ap (λ i. i.app) (here ∙ e)) listed)
            λ actual. sequence (runtime-At i r (ap (λ i. i.runtime) e)) λ runtime.
              sequence
                (success-At "run" (app_ref f ∷ []) i i r
                  (λ c. (is_done c ≡ true) × (strip c.stdout ≡ v)) (λ out. out ≡ v)
                  (λ c answer. answer)
                  λ s here. same_view (flatpak.run v r s release (ap (λ i. i.app) (here ∙ e))) here)
                λ output. given λ shown. require-Goes (output == v) (rw shown (eq_refl v)))
