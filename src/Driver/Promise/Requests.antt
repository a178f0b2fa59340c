-- ===== src/Driver/Promise/Requests.antt =====
-- The requests that a repository records while it serves version B.
use flatpak_blackbox_tests.Base.{
  String, Bool, true, false, List, [], ◌∷◌, ◌++◌, any, map, length, ◌≡◌, refl, inl, inr, ends_with,
  Bool-cases, arith,
}
use flatpak_blackbox_tests.Driver.{Request}
use flatpak_blackbox_tests.Driver.Calls.{request_of}
use flatpak_blackbox_tests.Driver.Scenario.{drop_requests, is_restored}

pub any-append-map :
    {A B : Type 0} (p : B → Bool) (q : A → Bool) (g : A → B) (xs : List B) (ys : List A)
    → ((y : A) → q y ≡ true → p (g y) ≡ true)
    → any q ys ≡ true
    → any p (xs ++ map g ys) ≡ true
any-append-map p q g [] [] h e = absurd (cc e)
any-append-map p q g [] (y ∷ ys) h e = elim (Bool-cases (q y)) [
  | inl e1 ↦ rw (h y e1) refl
  | inr e2 ↦ let rest = any-append-map p q g [] ys h (rw e2 at e) in ground (arith, rest)
]
any-append-map p q g (x ∷ xs) ys h e =
    let rest = any-append-map p q g xs ys h e in ground (arith, rest)

pub drop-append : (xs ys : List Request) → drop_requests (length xs) (xs ++ ys) ≡ ys
drop-append [] ys = refl
drop-append (x ∷ xs) ys = drop-append xs ys

pub restored_request :
    (path : String)
    → ends_with path ".filez" ≡ true
    → is_restored (request_of (record { version = "B"; fail_payloads = false }) path) ≡ true
restored_request path e = rw e refl

pub blocked_request :
    (path : String)
    → ends_with path ".filez" ≡ true
    → (request_of (record { version = "B"; fail_payloads = true }) path).blocked ≡ true
blocked_request path e = rw e refl
