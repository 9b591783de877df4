-- ===== src/Server.antt =====
-- internal/server/server.go: the gRPC service over a commit log, and internal/auth/authorizer.go.
pub mod Authentication
pub mod Streams
pub mod Node
pub mod EndToEnd
pub mod Statuses
pub mod Wiring
use aphros.Base.{ℕ, ◌≡◌, arith, Bool, Option, none, some, if◌then◌else◌}
use Prim.Native.String.{String}
use aphros.Api.{Record}
use aphros.Result.{Error, Result, ok, err}

-- Errors of the service: those of the log, and gRPC's PermissionDenied.
pub data Failure : Type 0 where
  of_log : Error → Failure
  permission_denied : Failure

pub data Response {ℓ} (A : Type ℓ) : Type ℓ where
  reply : A → Response A
  refused : Failure → Response A

-- The interface CommitLog, over the states of whatever implements it. A record that is appended may be
-- nil.
pub record CommitLog (S : Type 0) : Type 0 where
  pub append : Option Record → S → Result ℕ × S
  pub read : ℕ → S → Result Record × S

pub data Action : Type 0 where
  produce consume : Action

-- casbin's `Enforce` of a subject and an action on the object "*".
abbrev pub Enforcer : Type 0
Enforcer = String → Action → Bool

-- (a *Authorizer) Authorize.
pub authorize : Enforcer → String → Action → Option Failure
authorize enforce subject action = if enforce subject action then none else some permission_denied

abbrev pub of_result {ℓ} : {A : Type ℓ} → Result A → Response A
of_result (ok a) = reply a
of_result (err x) = refused (of_log x)

module _ {S : Type 0} (log : CommitLog S) (enforce : Enforcer) where
  produce_allowed : Option Failure → Option Record → S → Response ℕ × S
  produce_allowed (some x) r s = (refused x, s)
  produce_allowed none r s = let (res, s') = log.append r s in (of_result res, s')

  consume_allowed : Option Failure → ℕ → S → Response Record × S
  consume_allowed (some x) off s = (refused x, s)
  consume_allowed none off s = let (res, s') = log.read off s in (of_result res, s')

  -- Produce and Consume, for the subject of the context.
  pub handle_produce : String → Option Record → S → Response ℕ × S
  unfolding produce_allowed
  handle_produce subject r s = produce_allowed (authorize enforce subject produce) r s

  pub handle_consume : String → ℕ → S → Response Record × S
  unfolding consume_allowed
  handle_consume subject off s = consume_allowed (authorize enforce subject consume) off s

  -- Produce and Consume return what the log's Append and Read return, with the log's new state, for a
  -- subject that the enforcer allows; for any other they return PermissionDenied and leave the log.
  pub authorization :
      (subject : String) (r : Option Record) (off : ℕ) (s : S)
      → (handle_produce subject r s ≡ (
          if enforce subject produce
          then (of_result (log.append r s).0, (log.append r s).1)
          else (refused permission_denied, s)))
        × (handle_consume subject off s ≡ (
            if enforce subject consume
            then (of_result (log.read off s).0, (log.read off s).1)
            else (refused permission_denied, s)))
  unfolding handle_produce handle_consume authorize
  authorization subject r off s = (ground arith, ground arith)
