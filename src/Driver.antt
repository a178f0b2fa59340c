-- ===== src/Driver.antt =====
-- run.py: `Driver`, `execute` and the repository that a scenario runs against. A scenario is a script:
-- a function of the world that returns or raises. What the target does with a command line is the
-- parameter `exec`; its environment and its directory are the same in all of a scenario, so they are
-- inside of `exec`.
pub mod Text
pub mod Commands
pub mod Calls
pub mod Checks
pub mod Scenario
pub mod Remotes
pub mod Promise
pub mod Rules
pub mod Dispatch
pub mod Evidence
pub mod Starts
pub mod Attribution
use flatpak_blackbox_tests.Base.{String, Bool, true, false, Option, none, some, List, [], ◌∷◌, ◌++◌}
use flatpak_blackbox_tests.Base.Int.{ℤ}
use flatpak_blackbox_tests.Coverage.Records.{EvidenceRecord}
use flatpak_blackbox_tests.Runner.Failures.{Failure, contract_failure}

-- `RepositoryRequest`
pub record Request : Type 0 where
  pub path : String
  pub version : String
  pub blocked : Bool

-- `subprocess.CompletedProcess`
pub record Completed : Type 0 where
  pub returncode : ℤ
  pub stdout : String
  pub stderr : String

-- How a process ends: it cannot be started, it is killed after the timeout, or it exits.
pub data Ran : Type 0 where
  not_found : Ran
  timed_out : Completed → Ran
  exited : Completed → Ran

-- What a command does to a target with state `S`: its end, the paths that it requested of the
-- repository, and the new state.
pub record Reply (S : Type 0) : Type 0 where
  pub ran : Ran
  pub paths : List String
  pub after : S

-- `RepositoryServer`, but for its requests
pub record Repository : Type 0 where
  pub version : String
  pub fail_payloads : Bool

pub record World (S : Type 0) : Type 0 where
  pub target : S
  pub repository : Repository
  pub requests : List Request
  pub evidence : List EvidenceRecord

pub data Outcome (A : Type 0) : Type 0 where
  returned : A → Outcome A
  raised : Failure → Outcome A

-- `Driver`, but for its environment, its directory, its evidence and its timeout
pub record Driver : Type 0 where
  pub kind : String
  pub cli : String
  pub client : Option String

abbrev pub Script : Type 0 → Type 0 → Type 0
Script S A = World S → Outcome A × World S

abbrev pub and_then :
    {S A B : Type 0} → Outcome A × World S → (A → Script S B) → Outcome B × World S
and_then (returned a, w) next = next a w
and_then (raised f, w) next = (raised f, w)

infixl 5 ◌>>=◌ ◌>>◌
unfoldable pub ◌>>=◌ : {S A B : Type 0} → Script S A → (A → Script S B) → Script S B
◌>>=◌ m next w = and_then (m w) next

abbrev pub ◌>>◌ : {S B : Type 0} → Script S (Unit {0}) → Script S B → Script S B
m >> next = m >>= λ u. next

abbrev pub give : {S A : Type 0} → A → Script S A
give a w = (returned a, w)

abbrev pub raise : {S A : Type 0} → Failure → Script S A
raise f w = (raised f, w)

-- `require`
unfoldable pub require : {S : Type 0} → Bool → Script S (Unit {0})
require true = give tt
require false = raise contract_failure

-- `repository.version = ...`
abbrev pub set_version : {S : Type 0} → String → Script S (Unit {0})
set_version v w = (returned tt, record w { repository = record (w.repository) { version = v } })

-- `repository.fail_payloads = ...`
abbrev pub set_failing : {S : Type 0} → Bool → Script S (Unit {0})
set_failing b w =
    (returned tt, record w { repository = record (w.repository) { fail_payloads = b } })

abbrev pub get_requests : {S : Type 0} → Script S (List Request)
get_requests w = (returned w.requests, w)
