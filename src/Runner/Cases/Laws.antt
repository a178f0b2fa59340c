-- ===== src/Runner/Cases/Laws.antt =====
-- What holds of every run: no case stays pending, and what an exit status of 0 means.
use flatpak_blackbox_tests.Base.{
  ℕ, String, true, not, ◌&&◌, Option, none, some, List, [], ◌∷◌, ◌==◌, if◌then◌else◌, all, All, ◌≡◌,
  ap, sym, subst, ◌⊎◌, inl, inr, Bool-cases, Option-cases, and_true, eq_iff,
}
use flatpak_blackbox_tests.Base.Dict.{Dict}
use flatpak_blackbox_tests.Coverage.Records.{CaseResult, ArtifactIntegrity, RunReport, or_empty}
use flatpak_blackbox_tests.Coverage.Subject.{is_verified}
use flatpak_blackbox_tests.Runner.Failures.{Failure, expected_scenario_failures_only}
use flatpak_blackbox_tests.Runner.Failures.Laws.{
  IsExpected, expected_scenario_failures_only_iff, verified_some,
}
use flatpak_blackbox_tests.Runner.Attempt.{Case, Arguments, World, Run, is_pending, select}
use flatpak_blackbox_tests.Runner.Cases.{
  Ending, try_cases, final_cases, is_complete, results_of, finished_report, end_status, exit_status,
  main,
}
use flatpak_blackbox_tests.Runner.Cases.Status.{is_fine, final_fine}
use flatpak_blackbox_tests.Runner.Cases.Handled.{IsHandled, final_caught}
use flatpak_blackbox_tests.Runner.Cases.Settled.{is_driven, final_complete}

-- Of cases of the drivers "cli" and "library": if all exceptions that a run meets are of the classes that its handlers
-- name, then none is left at its end, and no case is pending.
pub final_cases_complete :
    (w : World) (args : Arguments) (known : List String) (unsupported : Dict String)
    (cases : List Case)
    → IsHandled w
    → all is_driven cases ≡ true
    → ((final_cases w args known unsupported cases).raised ≡ none)
      × (is_complete (final_cases w args known unsupported cases).cases ≡ true)
final_cases_complete w args known unsupported cases handled driven =
    let settled = final_caught w handled args known unsupported cases in
    (settled, final_complete w args known unsupported cases driven settled)

abbrev pub HasGoodStatus : CaseResult → Type 0
HasGoodStatus r = (r.status ≡ "passed") ⊎ (r.status ≡ "not-selected")

good_results :
    (cases : List Case)
    → all is_fine cases ≡ true
    → is_complete cases ≡ true
    → All HasGoodStatus (results_of cases)
good_results [] h k = tt
good_results (c ∷ cases) h k =
    let (fine, others) = and_true (is_fine c) _ h in
    let (settled, rest) = and_true (not (is_pending c)) _ k in
    let status = c.result.status in
    (
      elim (Bool-cases ("passed" == status)) [
        | inl e ↦ inl (sym ((eq_iff "passed" status).0 e))
        | inr e₁ ↦ elim (Bool-cases ("not-selected" == status)) [
          | inl e ↦ inr (sym ((eq_iff "not-selected" status).0 e))
          | inr e₂ ↦ elim (Bool-cases ("pending" == status)) [
            | inl e ↦ absurd (cc (rw (sym ((eq_iff "pending" status).0 e)) at settled))
            | inr e₃ ↦ absurd (cc (rw (e₁, e₂, e₃) at fine))
          ]
        ]
      ],
      good_results cases others rest,
    )

end_zero :
    (e : Ending) (status : ℕ) (report : RunReport)
    → end_status e status report ≡ 0
    → (status ≡ 0)
      × (is_verified report.artifact_integrity ≡ true)
      × ((e.verification report == "current") ≡ true)
unfolding end_status
end_zero e status report h = elim (Bool-cases (e.verification report == "current")) [
  | inr old ↦ absurd (cc (rw old at h))
  | inl now ↦ elim (Bool-cases (is_verified report.artifact_integrity)) [
    | inr changed ↦ absurd (cc (rw (now, changed) at h))
    | inl same ↦ (rw (now, same) at h, same, now)
  ]
]

-- The two ways to an exit status of 0.
exit_zero :
    (e : Ending) (args : Arguments) (status : ℕ) (report : RunReport)
    → exit_status e args status report ≡ 0
    → (end_status e status report ≡ 0)
      ⊎ ((args.allow_expected_failures ≡ true)
          × IsExpected report (some (e.verification report)) 1 e.summary_delivered)
unfolding exit_status
exit_zero e args status report h =
    let ended = end_status e status report in
    let summarized = if e.summary_failed then 1 else ended in
    let test =
      expected_scenario_failures_only report (some (e.verification report)) summarized
        e.summary_delivered in
    elim (Bool-cases (args.allow_expected_failures && test)) [
      | inr strict ↦ inl (elim (Bool-cases e.summary_failed) [
        | inl failed ↦ absurd (cc (rw (strict, failed) at h))
        | inr delivered ↦ rw (strict, delivered) at h
      ])
      | inl forgiven ↦
          let (a, b) = and_true args.allow_expected_failures test forgiven in
          let x =
            (expected_scenario_failures_only_iff report (some (e.verification report)) summarized
                e.summary_delivered).0
              b in
          inr (
            a,
            subst (λ n. IsExpected report (some (e.verification report)) n e.summary_delivered)
                x.status_one x,
          )
    ]

current_is : (s : String) → some s ≡ some "current" → (s == "current") ≡ true
current_is s e = let same : s ≡ "current" = cc e in (eq_iff s "current").1 same

-- What an exit status of 0 says of a report.
abbrev pub IsSuccess : Ending → Arguments → RunReport → Type 0
IsSuccess e args report =
    (report.complete ≡ some true)
    × ((i : ArtifactIntegrity) × (report.artifact_integrity ≡ some i)
        × (i.status ≡ some "verified"))
    × (e.verification report ≡ "current")
    × (All HasGoodStatus (or_empty report.results)
        ⊎ ((args.allow_expected_failures ≡ true)
            × IsExpected report (some (e.verification report)) 1 e.summary_delivered))

made-IsSuccess :
    (e : Ending) (args : Arguments) (artifacts : Dict String) (report : RunReport)
    (failure : Option Failure) (run : Run)
    → is_complete run.cases ≡ true
    → (run.status ≡ 0 → all is_fine run.cases ≡ true)
    → exit_status e args run.status (finished_report e artifacts report failure run.cases) ≡ 0
    → IsSuccess e args (finished_report e artifacts report failure run.cases)
unfolding finished_report
made-IsSuccess e args artifacts report failure run complete fine h =
    let made = finished_report e artifacts report failure run.cases in
    elim (exit_zero e args run.status made h) [
      | inl zero ↦
          let (status, verified, now) = end_zero e run.status made zero in
          (
            ap some complete,
            verified_some made.artifact_integrity verified,
            (eq_iff (e.verification made) "current").0 now,
            inl (good_results run.cases (fine status) complete),
          )
      | inr (allowed, x) ↦ (
        x.complete,
        x.integrity,
        (eq_iff (e.verification made) "current").0 (current_is (e.verification made) x.current),
        inr (allowed, x),
      )
    ]

-- Of cases of the drivers "cli" and "library": if a run exits with 0, then its report is complete, its artifacts are
-- verified and its coverage is current; and either every case passed or was not selected, or expected failures are
-- allowed and the failures of the report are all expected.
pub main_exit_zero :
    (w : World) (e : Ending) (args : Arguments) (known : List String)
    (unsupported artifacts : Dict String) (report : RunReport) (cases : List Case)
    (final : RunReport)
    → all is_driven cases ≡ true
    → main w e args known unsupported artifacts report cases ≡ (final, some 0)
    → IsSuccess e args final
unfolding main
main_exit_zero w e args known unsupported artifacts report cases final driven h =
    let run = final_cases w args known unsupported cases in
    let tried = try_cases w args known unsupported (select args cases) in
    let made = finished_report e artifacts report tried.raised run.cases in
    elim (Option-cases run.raised) [
      | inr (f, raised) ↦ absurd (cc (rw (main, raised) at (ap (λ p. p.1) h)))
      | inl quiet ↦
          let same : made ≡ final = ap (λ p. p.0) h in
          let exited : some (exit_status e args run.status made) ≡ some 0 =
            rw (main, quiet) at (ap (λ p. p.1) h) in
          subst (IsSuccess e args) same (
            made-IsSuccess e args artifacts report tried.raised run
              (final_complete w args known unsupported cases driven quiet)
              (final_fine w args known unsupported cases) (cc exited))
    ]
