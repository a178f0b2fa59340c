-- ===== src/Runner/Failures/Forgivable.antt =====
-- Which results a forgiven run may have.
use flatpak_blackbox_tests.Base.{
  String, true, false, ◌&&◌, List, [], ◌∷◌, ◌==◌, any, all, contains, ◌≡◌, refl, sym, eq_iff, arith,
  All, Bool-cases, inl, inr, and_true, or_false, or_true, starts_with, ◌⊎◌,
}
use flatpak_blackbox_tests.Coverage.Records.{CaseResult}
use flatpak_blackbox_tests.Runner.Failures.{is_security_sensitive, is_failed, settled_statuses}

-- The behaviors whose failures are never forgiven.
pub data IsSensitive (id : String) : Type 0 where
  auth : starts_with id "auth." ≡ true → IsSensitive id
  remote_auth : starts_with id "remote-auth." ≡ true → IsSensitive id
  multiuser_auth : starts_with id "multiuser.auth-" ≡ true → IsSensitive id
  sandbox : starts_with id "sandbox." ≡ true → IsSensitive id
  oci_signatures : starts_with id "oci-signatures." ≡ true → IsSensitive id
  pre_auth : id ≡ "transaction.pre-auth" → IsSensitive id

-- A result that a forgiven run may have.
pub data IsForgivable (r : CaseResult) : Type 0 where
  has_passed : r.status ≡ "passed" → IsForgivable r
  not_selected : r.status ≡ "not-selected" → IsForgivable r
  has_failed : r.status ≡ "failed" → ¬ IsSensitive r.behavior_id → IsForgivable r

abbrev pub SomeFailed : List CaseResult → Type 0
SomeFailed [] = ⊥
SomeFailed (r ∷ rs) = (r.status ≡ "failed") ⊎ SomeFailed rs

sensitive→ : (r : CaseResult) → IsSensitive r.behavior_id → is_security_sensitive r ≡ true
unfolding is_security_sensitive
sensitive→ r (auth h) = ground (arith, h)
sensitive→ r (remote_auth h) = ground (arith, h)
sensitive→ r (multiuser_auth h) = ground (arith, h)
sensitive→ r (sandbox h) = ground (arith, h)
sensitive→ r (oci_signatures h) = ground (arith, h)
sensitive→ r (pre_auth e) = rw e refl

sensitive← : (r : CaseResult) → is_security_sensitive r ≡ true → IsSensitive r.behavior_id
unfolding is_security_sensitive
sensitive← r h = elim (or_true _ (r.behavior_id == "transaction.pre-auth") h) [
  | inr e ↦ pre_auth ((eq_iff r.behavior_id "transaction.pre-auth").0 e)
  | inl some_prefix ↦ elim (or_true (starts_with r.behavior_id "auth.") _ some_prefix) [
    | inl e ↦ auth e
    | inr h₁ ↦ elim (or_true (starts_with r.behavior_id "remote-auth.") _ h₁) [
      | inl e ↦ remote_auth e
      | inr h₂ ↦ elim (or_true (starts_with r.behavior_id "multiuser.auth-") _ h₂) [
        | inl e ↦ multiuser_auth e
        | inr h₃ ↦ elim (or_true (starts_with r.behavior_id "sandbox.") _ h₃) [
          | inl e ↦ sandbox e
          | inr h₄ ↦ elim (or_true (starts_with r.behavior_id "oci-signatures.") _ h₄) [
            | inl e ↦ oci_signatures e
            | inr e ↦ absurd (cc e)
          ]
        ]
      ]
    ]
  ]
]

pub some_failed→ : (rs : List CaseResult) → any is_failed rs ≡ true → SomeFailed rs
some_failed→ [] h = absurd (cc h)
some_failed→ (r ∷ rs) h = elim (or_true (is_failed r) (any is_failed rs) h) [
  | inl here ↦ inl ((eq_iff r.status "failed").0 here)
  | inr there ↦ inr (some_failed→ rs there)
]

pub some_failed← : (rs : List CaseResult) → SomeFailed rs → any is_failed rs ≡ true
some_failed← [] h = elim h [ ]
some_failed← (r ∷ rs) (inl e) = rw e refl
some_failed← (r ∷ rs) (inr h) = let rest = some_failed← rs h in ground (arith, rest)

forgivable_result :
    (r : CaseResult)
    → contains r.status settled_statuses ≡ true
    → (is_failed r && is_security_sensitive r) ≡ false
    → IsForgivable r
unfolding is_security_sensitive
forgivable_result r settled safe = elim (Bool-cases ("passed" == r.status)) [
  | inl e ↦ has_passed (sym ((eq_iff "passed" r.status).0 e))
  | inr h₁ ↦ elim (Bool-cases ("failed" == r.status)) [
    | inl e ↦
        let failing = sym ((eq_iff "failed" r.status).0 e) in
        has_failed failing (λ sensitive. cc (rw (failing, sensitive→ r sensitive) at safe))
    | inr h₂ ↦ elim (Bool-cases ("not-selected" == r.status)) [
      | inl e ↦ not_selected (sym ((eq_iff "not-selected" r.status).0 e))
      | inr h₃ ↦ absurd (cc (rw (h₁, h₂, h₃) at settled))
    ]
  ]
]

result_forgivable :
    (r : CaseResult)
    → IsForgivable r
    → ((is_failed r && is_security_sensitive r) ≡ false)
      × (contains r.status settled_statuses ≡ true)
unfolding is_security_sensitive
result_forgivable r (has_passed e) = (rw e refl, rw e refl)
result_forgivable r (not_selected e) = (rw e refl, rw e refl)
result_forgivable r (has_failed e safe) = elim (Bool-cases (is_security_sensitive r)) [
  | inl sensitive ↦ absurd (safe (sensitive← r sensitive))
  | inr plain ↦ (rw (e, plain) refl, rw e refl)
]

pub forgivable→ :
    (rs : List CaseResult)
    → any (λ r. is_failed r && is_security_sensitive r) rs ≡ false
    → all (λ r. contains r.status settled_statuses) rs ≡ true
    → All IsForgivable rs
forgivable→ [] h k = tt
forgivable→ (r ∷ rs) h k =
    let (here, rest) = or_false (is_failed r && is_security_sensitive r) _ h in
    let (settled, others) = and_true (contains r.status settled_statuses) _ k in
    (forgivable_result r settled here, forgivable→ rs rest others)

pub forgivable← :
    (rs : List CaseResult)
    → All IsForgivable rs
    → (any (λ r. is_failed r && is_security_sensitive r) rs ≡ false)
      × (all (λ r. contains r.status settled_statuses) rs ≡ true)
forgivable← [] h = (refl, refl)
forgivable← (r ∷ rs) (one, h) =
    let (here, settled) = result_forgivable r one in
    let (a, b) = forgivable← rs h in (rw (here, a) refl, rw (settled, b) refl)
