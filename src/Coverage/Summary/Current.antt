-- ===== src/Coverage/Summary/Current.antt =====
-- What a current report is, without the tests of `summarize`.
use flatpak_blackbox_tests.Base.{
  ℕ, String, Bool, true, false, not, ◌&&◌, ◌||◌, Option, none, some, List, [], ◌∷◌, ◌==◌, all, All,
  contains, ◌≡◌, ◌⊎◌, ◌↔◌, refl, ap, sym, ◌∙◌, subst, arith, Bool-cases, Option-cases, inl, inr,
  and_true, true_and, or_true, eq_iff, eqb,
}
use flatpak_blackbox_tests.Base.Int.{ℤ, pos, negsuc}
use flatpak_blackbox_tests.Base.Dict.{Dict, lookup}
use flatpak_blackbox_tests.Base.Entries.{all-lookup}
use flatpak_blackbox_tests.Coverage.Records.{
  CaseIdentity, CaseResult, RunReport, Definition, ReportedDefinition, same_case, same_case_iff,
  or_empty, is_true, is_true_lem,
}
use flatpak_blackbox_tests.Coverage.Model.{CoverageModel}
use flatpak_blackbox_tests.Coverage.Subject.{subject_problem, is_filled}
use flatpak_blackbox_tests.Coverage.Summary.Verify.{
  statuses, same_int, same_entry, same_files, same_definition, has_case, distinct_cases,
  is_finished, result_keys, case_keys,
}

-- Field by field; the same file has the same digest, or is in neither.
pub record IsSame (a b : Definition) : Type 0 where
  pub schema : a.schema ≡ b.schema
  pub fingerprint : a.fingerprint ≡ b.fingerprint
  pub files : (path : String) → lookup path a.files ≡ lookup path b.files
  pub policy : a.policy_sha256 ≡ b.policy_sha256
  pub loader : a.loader_sha256 ≡ b.loader_sha256
  pub reference : a.reference_commit ≡ b.reference_commit

abbrev pub IsIn : CaseIdentity → List CaseIdentity → Type 0
IsIn k [] = ⊥
IsIn k (j ∷ js) = (j ≡ k) ⊎ IsIn k js

abbrev pub IsDistinct : List CaseIdentity → Type 0
IsDistinct [] = Unit
IsDistinct (k ∷ ks) = (¬ IsIn k ks) × IsDistinct ks

-- A final status, and confirmed cleanup behind a pass.
pub data IsFinished (r : CaseResult) : Type 0 where
  has_passed :
      r.status ≡ "passed"
      → r.cleanup_complete ≡ some true
      → (r.cleanup_error ≡ none) ⊎ (r.cleanup_error ≡ some "")
      → IsFinished r
  has_failed : r.status ≡ "failed" → IsFinished r
  is_unmet : r.status ≡ "unmet-prerequisite" → IsFinished r
  is_unsupported : r.status ≡ "unsupported" → IsFinished r
  had_setup_error : r.status ≡ "setup-error" → IsFinished r
  was_not_selected : r.status ≡ "not-selected" → IsFinished r

pub record IsCurrent (m : CoverageModel) (definition snapshot : Definition) (report : RunReport)
    : Type 0 where
  pub defined :
      (d : ReportedDefinition) × (report.coverage_definition ≡ some d)
      × (d.extensions ≡ [])
      × IsSame d.definition definition
  pub unchanged : IsSame snapshot definition
  pub complete : report.complete ≡ some true
  pub distinct : IsDistinct (result_keys (or_empty report.results))
  pub cases :
      (k : CaseIdentity)
      → IsIn k (result_keys (or_empty report.results)) ↔ IsIn k (case_keys m.cases)
  pub finished : All IsFinished (or_empty report.results)
  pub subject : subject_problem report (or_empty report.results) ≡ none

eqb_iff : (m n : ℕ) → (eqb m n ≡ true) ↔ (m ≡ n)
eqb_iff m n = (λ h. ground arith, λ h. ground arith)

same_int_iff : (a b : ℤ) → (same_int a b ≡ true) ↔ (a ≡ b)
same_int_iff (pos m) (pos n) = (λ h. ap pos ((eqb_iff m n).0 h), λ h. (eqb_iff m n).1 (cc h))
same_int_iff (negsuc m) (negsuc n) =
    (λ h. ap negsuc ((eqb_iff m n).0 h), λ h. (eqb_iff m n).1 (cc h))
same_int_iff (pos m) (negsuc n) = (λ h. absurd (cc h), λ h. absurd (cc h))
same_int_iff (negsuc m) (pos n) = (λ h. absurd (cc h), λ h. absurd (cc h))

same_entry_iff : (a b : Option String) → (same_entry a b ≡ true) ↔ (a ≡ b)
same_entry_iff none none = (λ h. refl, λ h. refl)
same_entry_iff (some s) (some t) = (λ h. ap some ((eq_iff s t).0 h), λ h. (eq_iff s t).1 (cc h))
same_entry_iff none (some t) = (λ h. absurd (cc h), λ h. absurd (cc h))
same_entry_iff (some s) none = (λ h. absurd (cc h), λ h. absurd (cc h))

all_of :
    (q : String → Bool) (d : Dict String)
    → ((k : String) → q k ≡ true)
    → all (λ (e : String × String). q e.0) d ≡ true
all_of q [] h = refl
all_of q ((k, v) ∷ d) h = true_and (h k) (all_of q d h)

same_files_iff :
    (a b : Dict String)
    → (same_files a b ≡ true) ↔ ((path : String) → lookup path a ≡ lookup path b)
unfolding same_files
same_files_iff a b =
    let q : String → Bool = λ k. same_entry (lookup k a) (lookup k b) in
    (
      λ h k.
          let (left, right) = and_true (all (λ (e : String × String). q e.0) a) _ h in
          elim (Option-cases (lookup k a)) [
            | inr (v, e) ↦
                (same_entry_iff (lookup k a) (lookup k b)).0
                  (all-lookup (λ (e : String × String). q e.0) k v a left e)
            | inl e ↦ elim (Option-cases (lookup k b)) [
              | inl e' ↦ e ∙ sym e'
              | inr (v, e') ↦
                  (same_entry_iff (lookup k a) (lookup k b)).0
                    (all-lookup (λ (e : String × String). q e.0) k v b right e')
            ]
          ],
      λ h.
          let good : (k : String) → q k ≡ true =
            λ k. (same_entry_iff (lookup k a) (lookup k b)).1 (h k) in
          true_and (all_of q a good) (all_of q b good),
    )

pub same_definition-IsSame : (a b : Definition) → same_definition a b ≡ true → IsSame a b
unfolding same_definition
same_definition-IsSame a b h =
    let (schema, h₁) = and_true (same_int a.schema b.schema) _ h in
    let (fingerprint, h₂) = and_true (a.fingerprint == b.fingerprint) _ h₁ in
    let (files, h₃) = and_true (same_files a.files b.files) _ h₂ in
    let (policy, h₄) = and_true (a.policy_sha256 == b.policy_sha256) _ h₃ in
    let (loader, reference) = and_true (a.loader_sha256 == b.loader_sha256) _ h₄ in
    record {
      schema = (same_int_iff a.schema b.schema).0 schema;
      fingerprint = (eq_iff a.fingerprint b.fingerprint).0 fingerprint;
      files = (same_files_iff a.files b.files).0 files;
      policy = (eq_iff a.policy_sha256 b.policy_sha256).0 policy;
      loader = (eq_iff a.loader_sha256 b.loader_sha256).0 loader;
      reference = (eq_iff a.reference_commit b.reference_commit).0 reference;
    }

pub IsSame-same_definition : (a b : Definition) → IsSame a b → same_definition a b ≡ true
unfolding same_definition
IsSame-same_definition a b s = true_and ((same_int_iff a.schema b.schema).1 s.schema) (
    true_and ((eq_iff a.fingerprint b.fingerprint).1 s.fingerprint) (
      true_and ((same_files_iff a.files b.files).1 s.files) (
        true_and ((eq_iff a.policy_sha256 b.policy_sha256).1 s.policy) (
          true_and ((eq_iff a.loader_sha256 b.loader_sha256).1 s.loader)
            ((eq_iff a.reference_commit b.reference_commit).1 s.reference)))))

has_case_iff : (k : CaseIdentity) (ks : List CaseIdentity) → (has_case k ks ≡ true) ↔ IsIn k ks
has_case_iff k [] = (λ h. absurd (cc h), λ h. elim h [ ])
has_case_iff k (j ∷ js) = (
  λ h. elim (or_true (same_case j k) (has_case k js) h) [
    | inl e ↦ inl ((same_case_iff j k).0 e)
    | inr e ↦ inr ((has_case_iff k js).0 e)
  ],
  λ h. elim h [
    | inl e ↦ rw ((same_case_iff j k).1 e) refl
    | inr e ↦ let rest = (has_case_iff k js).1 e in ground (arith, rest)
  ],
)

pub IsDistinct-iff : (ks : List CaseIdentity) → (distinct_cases ks ≡ true) ↔ IsDistinct ks
IsDistinct-iff [] = (λ h. tt, λ h. refl)
IsDistinct-iff (k ∷ ks) = (
  λ h.
      let (new, rest) = and_true (not (has_case k ks)) (distinct_cases ks) h in
      (λ there. cc (rw ((has_case_iff k ks).1 there) at new), (IsDistinct-iff ks).0 rest),
  λ (new, rest).
      true_and
        (elim (Bool-cases (has_case k ks)) [
          | inl e ↦ absurd (new ((has_case_iff k ks).0 e))
          | inr e ↦ rw e refl
        ])
        ((IsDistinct-iff ks).1 rest),
)

pub all-IsIn_iff :
    (ks cases : List CaseIdentity)
    → (all (λ k. has_case k cases) ks ≡ true) ↔ ((k : CaseIdentity) → IsIn k ks → IsIn k cases)
all-IsIn_iff [] cases = (λ h k there. elim there [ ], λ h. refl)
all-IsIn_iff (j ∷ js) cases = (
  λ h k there.
      let (here, rest) = and_true (has_case j cases) _ h in
      elim there [
        | inl e ↦ subst (λ k. IsIn k cases) e ((has_case_iff j cases).0 here)
        | inr e ↦ (all-IsIn_iff js cases).0 rest k e
      ],
  λ h.
      true_and ((has_case_iff j cases).1 (h j (inl refl)))
        ((all-IsIn_iff js cases).1 λ k there. h k (inr there)),
)

silent_iff : (o : Option String) → (is_filled o ≡ false) ↔ ((o ≡ none) ⊎ (o ≡ some ""))
silent_iff none = (λ h. inl refl, λ h. refl)
silent_iff (some String.[]) = (λ h. inr refl, λ h. refl)
silent_iff (some (String.◌∷◌ c s)) = (
  λ h. absurd (cc h),
  λ h. elim h [ inl e ↦ absurd (cc e) | inr e ↦ absurd (cc (ap is_filled e)) ],
)

known_status :
    (s : String)
    → contains s statuses ≡ true
    → (s ≡ "passed")
      ⊎ ((s ≡ "failed")
          ⊎ ((s ≡ "unmet-prerequisite")
              ⊎ ((s ≡ "unsupported") ⊎ ((s ≡ "setup-error") ⊎ (s ≡ "not-selected")))))
known_status s h = elim (or_true ("passed" == s) _ h) [
  | inl e ↦ inl (sym ((eq_iff "passed" s).0 e))
  | inr h₁ ↦ inr (elim (or_true ("failed" == s) _ h₁) [
    | inl e ↦ inl (sym ((eq_iff "failed" s).0 e))
    | inr h₂ ↦ inr (elim (or_true ("unmet-prerequisite" == s) _ h₂) [
      | inl e ↦ inl (sym ((eq_iff "unmet-prerequisite" s).0 e))
      | inr h₃ ↦ inr (elim (or_true ("unsupported" == s) _ h₃) [
        | inl e ↦ inl (sym ((eq_iff "unsupported" s).0 e))
        | inr h₄ ↦ inr (elim (or_true ("setup-error" == s) _ h₄) [
          | inl e ↦ inl (sym ((eq_iff "setup-error" s).0 e))
          | inr h₅ ↦ inr (elim (or_true ("not-selected" == s) _ h₅) [
            | inl e ↦ sym ((eq_iff "not-selected" s).0 e)
            | inr e ↦ absurd (cc e)
          ])
        ])
      ])
    ])
  ])
]

clean_pass :
    (s : String) (error done : Bool)
    → s ≡ "passed"
    → not (s == "passed" && (error || not done)) ≡ true
    → (error ≡ false) × (done ≡ true)
clean_pass s error done e h =
    let same : (s == "passed") ≡ true = (eq_iff s "passed").1 e in
    (ground (arith, h, same), ground (arith, h, same))

is_finished-IsFinished : (r : CaseResult) → is_finished r ≡ true → IsFinished r
unfolding is_finished
is_finished-IsFinished r h =
    let (known, clean) = and_true (contains r.status statuses) _ h in
    elim (known_status r.status known) [
      | inl e ↦
          let (silent, done) =
            clean_pass r.status (is_filled r.cleanup_error) (is_true r.cleanup_complete) e clean in
          has_passed e (is_true_lem r.cleanup_complete done) ((silent_iff r.cleanup_error).0 silent)
      | inr (inl e) ↦ has_failed e
      | inr (inr (inl e)) ↦ is_unmet e
      | inr (inr (inr (inl e))) ↦ is_unsupported e
      | inr (inr (inr (inr (inl e)))) ↦ had_setup_error e
      | inr (inr (inr (inr (inr e)))) ↦ was_not_selected e
    ]

IsFinished-is_finished : (r : CaseResult) → IsFinished r → is_finished r ≡ true
unfolding is_finished
IsFinished-is_finished r (has_passed e done silent) =
    rw (e, done, (silent_iff r.cleanup_error).1 silent) refl
IsFinished-is_finished r (has_failed e) = rw e refl
IsFinished-is_finished r (is_unmet e) = rw e refl
IsFinished-is_finished r (is_unsupported e) = rw e refl
IsFinished-is_finished r (had_setup_error e) = rw e refl
IsFinished-is_finished r (was_not_selected e) = rw e refl

pub all-IsFinished_iff : (rs : List CaseResult) → (all is_finished rs ≡ true) ↔ All IsFinished rs
all-IsFinished_iff [] = (λ h. tt, λ h. refl)
all-IsFinished_iff (r ∷ rs) = (
  λ h.
      let (here, rest) = and_true (is_finished r) _ h in
      (is_finished-IsFinished r here, (all-IsFinished_iff rs).0 rest),
  λ (here, rest). true_and (IsFinished-is_finished r here) ((all-IsFinished_iff rs).1 rest),
)
