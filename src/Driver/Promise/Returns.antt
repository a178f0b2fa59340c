-- ===== src/Driver/Promise/Returns.antt =====
-- Total correctness of scripts: from a world that satisfies a predicate, a script returns.
use flatpak_blackbox_tests.Base.{
  String, Bool, true, false, Option, none, some, List, [], ◌∷◌, ◌++◌, if◌then◌else◌, map, contains,
  ◌≡◌, refl, sym, subst,
}
use flatpak_blackbox_tests.Coverage.Records.{EvidenceRecord}
use flatpak_blackbox_tests.Driver.Commands.{interface_of}
use flatpak_blackbox_tests.Driver.{
  Completed, Ran, not_found, timed_out, exited, Reply, Repository, World, Outcome, returned, raised,
  Driver, Script, ◌>>=◌, ◌>>◌, and_then, give, require,
}
use flatpak_blackbox_tests.Driver.Calls.{
  request_of, recorded, outcome_of_run, attribute_last, external_call, call_argv, call,
}
use flatpak_blackbox_tests.Driver.Checks.{entry_of, item_of}
use flatpak_blackbox_tests.Driver.Starts.{interface_known}
use flatpak_blackbox_tests.Driver.Promise.{Answered}

module _ {S : Type 0} where
  abbrev pub Returns : {A : Type 0} → (A → World S → Type 0) → Outcome A × World S → Type 0
  Returns Q (returned a, w) = Q a w
  Returns Q (raised f, w) = ⊥

  pub data Goes (P : World S → Type 0) {A : Type 0} (m : Script S A) (Q : A → World S → Type 0)
      : Type 0 where
    goes : ((w : World S) → P w → Returns Q (m w)) → Goes P m Q

  pub Goes-after :
      {P : World S → Type 0} {A : Type 0} {m : Script S A} {Q : A → World S → Type 0}
      → Goes P m Q
      → (w : World S) → P w
      → Returns Q (m w)
  Goes-after (goes k) = k

  and_then-Returns :
      {A B : Type 0} (Q : A → World S → Type 0) (R : B → World S → Type 0) (r : Outcome A × World S)
      (next : A → Script S B)
      → Returns Q r
      → ((a : A) (w : World S) → Q a w → Returns R (next a w))
      → Returns R (and_then r next)
  and_then-Returns Q R (returned a, w) next h k = k a w h
  and_then-Returns Q R (raised f, w) next h k = h

  pub sequence :
      {P : World S → Type 0} {A B : Type 0} {m : Script S A} {next : A → Script S B}
      {Q : A → World S → Type 0} {R : B → World S → Type 0}
      → Goes P m Q
      → ((a : A) → Goes (Q a) (next a) R)
      → Goes P (m >>= next) R
  unfolding ◌>>=◌
  sequence {m = m} {next = next} {Q = Q} {R = R} h k =
      goes λ w p. and_then-Returns Q R (m w) next (Goes-after h w p) λ a. Goes-after (k a)

  -- A fact of the state before is a hypothesis of the script.
  pub given :
      {C : Type 0} {P : World S → Type 0} {A : Type 0} {m : Script S A} {Q : A → World S → Type 0}
      → (C → Goes P m Q)
      → Goes (λ w. C × P w) m Q
  given h = goes λ w (c, p). Goes-after (h c) w p

  pub require-Goes : {P : World S → Type 0} (b : Bool) → b ≡ true → Goes P (require b) (λ u. P)
  unfolding require
  require-Goes true e = goes λ w p. p
  require-Goes false e = absurd (cc e)

  pub entry-Goes :
      {P : World S → Type 0} {A : Type 0} (o : Option A) (a : A)
      → o ≡ some a
      → Goes P (entry_of o) (λ b w. (b ≡ a) × P w)
  unfolding entry_of
  entry-Goes none a e = absurd (cc e)
  entry-Goes (some b) a e = goes λ w p. (cc e, p)

  pub item-Goes :
      {P : World S → Type 0} {A : Type 0} (o : Option A) (a : A)
      → o ≡ some a
      → Goes P (item_of o) (λ b w. (b ≡ a) × P w)
  unfolding item_of
  item-Goes none a e = absurd (cc e)
  item-Goes (some b) a e = goes λ w p. (cc e, p)

  pub give-Goes :
      {P : World S → Type 0} {A : Type 0} (a : A) → Goes P (give a) (λ b w. (b ≡ a) × P w)
  give-Goes a = goes λ w p. (refl, p)

  pub if_true :
      {P : World S → Type 0} {A : Type 0} (b : Bool) (m n : Script S A) {Q : A → World S → Type 0}
      → b ≡ true
      → Goes P m Q
      → Goes P (if b then m else n) Q
  if_true true m n e h = h
  if_true false m n e h = absurd (cc e)

  pub if_false :
      {P : World S → Type 0} {A : Type 0} (b : Bool) (m n : Script S A) {Q : A → World S → Type 0}
      → b ≡ false
      → Goes P n Q
      → Goes P (if b then m else n) Q
  if_false true m n e h = absurd (cc e)
  if_false false m n e h = h

  weaken-Returns :
      {A : Type 0} (Q R : A → World S → Type 0) (r : Outcome A × World S)
      → Returns Q r
      → ((a : A) (w : World S) → Q a w → R a w)
      → Returns R r
  weaken-Returns Q R (returned a, w) h k = k a w h
  weaken-Returns Q R (raised f, w) h k = h

  pub weaken :
      {P : World S → Type 0} {A : Type 0} {m : Script S A} {Q R : A → World S → Type 0}
      → Goes P m Q
      → ((a : A) (w : World S) → Q a w → R a w)
      → Goes P m R
  weaken {m = m} {Q = Q} {R = R} h k = goes λ w p. weaken-Returns Q R (m w) (Goes-after h w p) k

pub answer_map :
    {S : Type 0} {exec : List String → Repository → S → Reply S} {d : Driver} {operation : String}
    {arguments : List String} {r : Repository} {s : S}
    {Post Then : Completed → List String → S → Type 0}
    → Answered exec d operation arguments r s Post
    → ((c : Completed) (paths : List String) (s' : S) → Post c paths s' → Then c paths s')
    → Answered exec d operation arguments r s Then
answer_map a k = record {
  argv = a.argv;
  line = a.line;
  completed = a.completed;
  exits = a.exits;
  holds = k a.completed _ _ a.holds;
}

-- the world after a command that exits
abbrev pub after_call : {S : Type 0} → World S → List String → S → List EvidenceRecord → World S
after_call w paths s records = record {
  target = s;
  repository = w.repository;
  requests = w.requests ++ map (request_of w.repository) paths;
  evidence = records;
}

module _ {S : Type 0} (exec : List String → Repository → S → Reply S) (d : Driver) where
  exited-Returns :
      (argv : List String) (interface : String) (w : World S) (reply : Reply S) (ran : Ran)
      (c : Completed) (Q : Completed → World S → Type 0)
      → ran ≡ exited c
      → ((records : List EvidenceRecord) → Q c (after_call w reply.paths reply.after records))
      → Returns Q (
          and_then
            (
              outcome_of_run ran,
              record w {
                target = reply.after;
                requests = w.requests ++ map (request_of w.repository) reply.paths;
                evidence = w.evidence ++ recorded argv ran ∷ [];
              },
            )
            (λ result. attribute_last exec interface result >> give result))
  unfolding ◌>>=◌
  exited-Returns argv interface w reply not_found c Q e h = absurd (cc e)
  exited-Returns argv interface w reply (timed_out b) c Q e h = absurd (cc e)
  exited-Returns argv interface w reply (exited b) c Q e h =
      subst
        (λ c. (records : List EvidenceRecord) → Q c (after_call w reply.paths reply.after records))
        (sym (cc e)) h _

  external-Returns :
      (argv : List String) (interface : String) (w : World S) (c : Completed)
      (Q : Completed → World S → Type 0)
      → contains interface ("cli" ∷ "library" ∷ "setup" ∷ []) ≡ true
      → (exec argv w.repository w.target).ran ≡ exited c
      → ((records : List EvidenceRecord)
          → Q c (
              after_call w
                (exec argv w.repository w.target).paths
                (exec argv w.repository w.target).after
                records))
      → Returns Q (external_call exec argv interface w)
  unfolding external_call ◌>>=◌
  external-Returns argv interface w c Q known e h =
      let reply = exec argv w.repository w.target in
      rw known (exited-Returns argv interface w reply reply.ran c Q e h)

  -- A call returns what the command answers.
  pub call-Goes :
      {P : World S → Type 0} (operation : String) (arguments : List String)
      {Q : Completed → World S → Type 0}
      → ((w : World S)
          → P w
          → Answered exec d operation arguments w.repository w.target
              (λ c paths s. (records : List EvidenceRecord) → Q c (after_call w paths s records)))
      → Goes P (call exec d operation arguments) Q
  unfolding call
  call-Goes operation arguments {Q} h = goes λ w p.
      let a = h w p in
      subst (λ o. Returns Q (call_argv exec d o (interface_of d operation) w)) (sym a.line)
        (external-Returns a.argv (interface_of d operation) w a.completed Q
          (interface_known d operation).0 a.exits a.holds)
