-- ===== src/Driver/Attribution.antt =====
-- A standard scenario that returns has evidence that attributes its case.
use flatpak_blackbox_tests.Base.{
  String, Bool, true, false, ◌||◌, none, some, List, [], ◌∷◌, ◌++◌, ◌==◌, any, contains, is_empty,
  map, ◌≡◌, refl, ◌∙◌, subst, ◌⊎◌, inl, inr, arith, eq_refl,
}
use flatpak_blackbox_tests.Coverage.Records.{CaseIdentity, CaseResult, EvidenceRecord, is_text}
use flatpak_blackbox_tests.Coverage.Subject.{
  command_problem, commands_problem, case_problem, has_program, is_nonempty,
}
use flatpak_blackbox_tests.Driver.Commands.{argv_of, interface_of}
use flatpak_blackbox_tests.Driver.{
  Completed, Ran, not_found, timed_out, exited, Reply, Repository, World, Outcome, returned, raised,
  Driver, ◌>>=◌, ◌>>◌, and_then, give,
}
use flatpak_blackbox_tests.Driver.Calls.{
  request_of, fresh_record, with_end, recorded, outcome_of_run, attribute, attribute_last,
  external_call, call, call_argv,
}
use flatpak_blackbox_tests.Driver.Scenario.{Fixture}
use flatpak_blackbox_tests.Driver.Rules.{Holds, Keeps, keeps}
use flatpak_blackbox_tests.Driver.Dispatch.{scenario}
use flatpak_blackbox_tests.Driver.Dispatch.Laws.{takes, Takes-after, scenario-Takes}
use flatpak_blackbox_tests.Driver.Evidence.{
  IsLegible, commands_problem-append, update_last-append, any-append, attribute_lem,
  attribute-interface,
}
use flatpak_blackbox_tests.Driver.Starts.{Starts, argv_of-Starts, interface_known}

module _ {S : Type 0} (exec : List String → Repository → S → Reply S)
    (legible : (argv : List String) (r : Repository) (s : S) (c : Completed)
      → (exec argv r s).ran ≡ exited c
      → IsLegible c) where
  after_run :
      (argv : List String) (interface : String) (w : World S) (reply : Reply S) (ran : Ran)
      (Q : World S → Type 0)
      → has_program argv ≡ true
      → ((c : Completed) → ran ≡ exited c → IsLegible c)
      → ((w' : World S) (c : Completed)
          → w'.evidence ≡ w.evidence ++ attribute interface c (with_end c (fresh_record argv)) ∷ []
          → command_problem (attribute interface c (with_end c (fresh_record argv))) ≡ none
          → Q w')
      → Holds Q (
          and_then
            (
              outcome_of_run ran,
              record w {
                target = reply.after;
                requests = w.requests ++ map (request_of w.repository) reply.paths;
                evidence = w.evidence ++ recorded argv ran ∷ [];
              },
            )
            (λ result. attribute_last exec interface result >> give result))
  unfolding ◌>>=◌
  after_run argv interface w reply not_found Q program named next = tt
  after_run argv interface w reply (timed_out c) Q program named next = tt
  after_run argv interface w reply (exited c) Q program named next =
      next _ c
        (update_last-append (attribute interface c) w.evidence (with_end c (fresh_record argv)))
        (attribute_lem argv interface c program (named c refl))

  external_call_lem :
      (argv : List String) (interface : String) (w : World S) (Q : World S → Type 0)
      → contains interface ("cli" ∷ "library" ∷ "setup" ∷ []) ≡ true
      → has_program argv ≡ true
      → ((w' : World S) (c : Completed)
          → w'.evidence ≡ w.evidence ++ attribute interface c (with_end c (fresh_record argv)) ∷ []
          → command_problem (attribute interface c (with_end c (fresh_record argv))) ≡ none
          → Q w')
      → Holds Q (external_call exec argv interface w)
  unfolding external_call ◌>>=◌
  external_call_lem argv interface w Q known program next =
      let reply = exec argv w.repository w.target in
      rw known (
        after_run argv interface w reply reply.ran Q program (legible argv w.repository w.target)
          next)

  call_argv_lem :
      (o : Outcome (List String)) (interface : String) (w : World S) (Q : World S → Type 0)
      → contains interface ("cli" ∷ "library" ∷ "setup" ∷ []) ≡ true
      → Starts o
      → ((w' : World S) (r : EvidenceRecord)
          → ((interface == "setup") ≡ false → r.interface ≡ some interface)
          → w'.evidence ≡ w.evidence ++ r ∷ []
          → command_problem r ≡ none
          → Q w')
      → (d : Driver) → Holds Q (call_argv exec d o interface w)
  call_argv_lem (raised f) interface w Q known program next d = tt
  call_argv_lem (returned argv) interface w Q known program next d =
      external_call_lem argv interface w Q known program λ w' c e accepted.
        next w' (attribute interface c (with_end c (fresh_record argv)))
          (attribute-interface argv interface c) e accepted

  module _ (fold : String → String) (d : Driver) (f : Fixture) (cli_named : is_empty d.cli ≡ false)
      (client_named : (c : String) → d.client ≡ some c → is_empty c ≡ false) where
    call_lem :
        (operation : String) (arguments : List String) (w : World S) (Q : World S → Type 0)
        → ((w' : World S) (r : EvidenceRecord)
            → r.interface ≡ some (interface_of d operation)
            → w'.evidence ≡ w.evidence ++ r ∷ []
            → command_problem r ≡ none
            → Q w')
        → Holds Q (call exec d operation arguments w)
    unfolding call
    call_lem operation arguments w Q next =
        let (known, real) = interface_known d operation in
        call_argv_lem (argv_of d operation arguments) (interface_of d operation) w Q known
          (argv_of-Starts d operation arguments cli_named client_named)
          (λ w' r whose e accepted. next w' r (whose real) e accepted) d

    -- All evidence is accepted, and some of it is of the case's own interface.
    abbrev Covered : World S → Type 0
    Covered w =
        (commands_problem w.evidence ≡ none)
        × (any (λ c. is_text d.kind c.interface) w.evidence ≡ true)

    or_left : (a b : Bool) → a ≡ true → (a || b) ≡ true
    or_left a b h = rw h refl

    or_right : (a b : Bool) → b ≡ true → (a || b) ≡ true
    or_right a b h = ground arith

    grown :
        (w w' : World S) (r : EvidenceRecord)
        → w'.evidence ≡ w.evidence ++ r ∷ []
        → command_problem r ≡ none
        → commands_problem w.evidence ≡ none
        → commands_problem w'.evidence ≡ none
    grown w w' r e accepted h = rw e (commands_problem-append w.evidence r h accepted)

    call-Covered :
        (operation : String) (arguments : List String)
        → Keeps Covered (call exec d operation arguments)
    call-Covered operation arguments = keeps λ w (h, some_own).
        call_lem operation arguments w Covered λ w' r whose e accepted. (
          grown w w' r e accepted h,
          rw e (
              any-append (λ c. is_text d.kind c.interface) w.evidence r
              ∙ or_left (any (λ c. is_text d.kind c.interface) w.evidence)
                  (is_text d.kind r.interface) some_own),
        )

    first-Covered :
        (operation : String) (arguments : List String) (w : World S)
        → interface_of d operation ≡ d.kind
        → commands_problem w.evidence ≡ none
        → Holds Covered (call exec d operation arguments w)
    first-Covered operation arguments w own h =
        call_lem operation arguments w Covered λ w' r whose e accepted. (
          grown w w' r e accepted h,
          rw e (
              any-append (λ c. is_text d.kind c.interface) w.evidence r
              ∙ or_right (any (λ c. is_text d.kind c.interface) w.evidence)
                  (is_text d.kind r.interface) (rw (whose, own) (eq_refl d.kind))),
        )

    first_own :
        (operation : String)
        → (operation == "run") ≡ false
        → (d.kind ≡ "cli") ⊎ (d.kind ≡ "library")
        → interface_of d operation ≡ d.kind
    unfolding interface_of
    first_own operation plain (inl cli) = rw cli refl
    first_own operation plain (inr library) = rw (library, plain) refl

    scenario-Covered :
        (d.kind ≡ "cli") ⊎ (d.kind ≡ "library")
        → (url name : String) (w : World S) → commands_problem w.evidence ≡ none
        → Holds Covered (scenario fold exec d f url name w)
    scenario-Covered kind url name w h =
        Takes-after
          (scenario-Takes {P = λ w. commands_problem w.evidence ≡ none} {Q = Covered} fold exec d f
            (λ operation arguments plain.
              takes λ w h. first-Covered operation arguments w (first_own operation plain kind) h)
            call-Covered (λ v. keeps λ w h. h) (λ v. keeps λ w h. h) (λ b. keeps λ w h. h) url name)
          w h

abbrev pub case_of : CaseIdentity → List EvidenceRecord → CaseResult
case_of identity records = record {
  identity = identity;
  status = "passed";
  evidence = some records;
  cleanup_complete = none;
  cleanup_error = none;
}

some_record :
    (p : EvidenceRecord → Bool) (records : List EvidenceRecord)
    → any p records ≡ true
    → is_nonempty records ≡ true
some_record p [] h = absurd (cc h)
some_record p (r ∷ rs) h = refl

covered_case :
    (identity : CaseIdentity) (records : List EvidenceRecord)
    → commands_problem records ≡ none
    → any (λ c. is_text identity.driver c.interface) records ≡ true
    → case_problem (case_of identity records) ≡ none
unfolding case_problem
covered_case identity records h k =
    rw (some_record (λ c. is_text identity.driver c.interface) records k) (rw (h, k) refl)

-- When a standard scenario returns for a driver of kind "cli" or "library" whose programs have names, and the evidence
-- before it was accepted, the coverage report accepts the attribution of the case's evidence. What the programs print
-- as marks of their calls must be names.
pub scenario-case_problem :
    {S : Type 0} (fold : String → String) (exec : List String → Repository → S → Reply S)
    (d : Driver) (f : Fixture) (identity : CaseIdentity) (url name : String) (w w' : World S)
    → ((argv : List String) (r : Repository) (s : S) (c : Completed)
        → (exec argv r s).ran ≡ exited c
        → IsLegible c)
    → is_empty d.cli ≡ false
    → ((c : String) → d.client ≡ some c → is_empty c ≡ false)
    → (d.kind ≡ "cli") ⊎ (d.kind ≡ "library")
    → identity.driver ≡ d.kind
    → commands_problem w.evidence ≡ none
    → scenario fold exec d f url name w ≡ (returned tt, w')
    → case_problem (case_of identity w'.evidence) ≡ none
scenario-case_problem {S} fold exec d f identity url name w w' legible cli client kind same h ran =
    let (accepted, own) =
      subst (Holds (Covered exec legible fold d f cli client)) ran
        (scenario-Covered exec legible fold d f cli client kind url name w h) in
    covered_case identity w'.evidence accepted (rw same own)
