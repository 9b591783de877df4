-- ===== src/Server/Statuses.antt =====
-- What a client of the gRPC service gets of a failed call: the statuses of the errors, and Consume over
-- a node's log.
use aphros.Base.{
  ℕ, ◌≡◌, Option, none, some, subst, refl, sym, ap, ◌∙◌, Bool, true, false, List, [], ◌++◌,
  if◌then◌else◌,
}
use aphros.Base.Strings.{bytes_of}
use Prim.Native.String.{String}
use aphros.Result.{
  Error, eof, unexpected_eof, io_failure, invalid_size, not_exist, bad_record, panic, out_of_range,
  Result, ok, err,
}
use aphros.Api.{Record, Codec}
use aphros.Api.OffsetError.{Status, Attach, Appended, grpc_status, grpc_status-code}
use aphros.Log.{Env, read}
use aphros.Log.Contents.{IsLog}
use aphros.Log.Expected.{expected, read-expected}
use aphros.Server.{
  Enforcer, Action, produce, consume, Failure, of_log, permission_denied, reply, refused, of_result,
}
use aphros.Server.Authentication.{
  Peer, Outcome, answered, unknown, crash, authenticate, subject_is, consume_call, consume_call_lem,
}
use aphros.Server.Node.{node_log}

abbrev pub action_name : Action → String
action_name produce = "produce"
action_name consume = "consume"

-- codes.PermissionDenied, with Authorize's message.
abbrev pub denied : String → Action → Status
denied subject action = record {
  code = 7;
  message =
      bytes_of subject
      ++ bytes_of " not permitted to "
      ++ bytes_of (action_name action)
      ++ bytes_of " to *";
  details = [];
}

-- codes.Unknown, with authenticate's message.
abbrev pub no_peer : Status
no_peer = record { code = 2; message = bytes_of "couldn't find peer info"; details = [] }

-- What a handler's return comes to: a message, the status of a failure, or a panic.
pub data Delivered (A : Type 0) : Type 0 where
  message : A → Delivered A
  status_is : Status → Delivered A
  broken : Delivered A

-- The status that an error has by its GRPCStatus: authenticate's and Authorize's errors are made of one
-- by status.New, and an offset that is out of range has its own. Other errors have none.
abbrev pub own_status : (ℕ → List ℕ) → Attach → Error → Option Status
own_status decimal attach (out_of_range off) = some (grpc_status decimal attach off)
own_status decimal attach x = none

-- gRPC's status of an error, from the status that it has and its text. What status.FromError documents
-- is `takes_own`: the status of an error that has one.
pub record Conversion : Type 0 where
  pub convert : Option Status → List ℕ → Status
  pub takes_own : (st : Status) (text : List ℕ) → convert (some st) text ≡ st

-- `text` is an error's Error.
module _ (decimal : ℕ → List ℕ) (attach : Attach) (text : Error → List ℕ) (grpc : Conversion) where
  abbrev pub status_of : Error → Status
  status_of x = grpc.convert (own_status decimal attach x) (text x)

  abbrev pub failure_status : String → Action → Failure → Status
  failure_status subject action (of_log x) = status_of x
  failure_status subject action permission_denied =
      grpc.convert (some (denied subject action)) (denied subject action).message

  abbrev pub delivered : {A : Type 0} → String → Action → Outcome A → Delivered A
  delivered subject action (answered (reply a)) = message a
  delivered subject action (answered (refused f)) = status_is (failure_status subject action f)
  delivered subject action unknown = status_is (grpc.convert (some no_peer) no_peer.message)
  delivered subject action crash = broken

  -- What a client is promised of a Consume, by whether its subject may and what the log has: 7 is
  -- codes.PermissionDenied, and 404 the code of an offset that is out of range.
  abbrev pub Promised : String → Bool → Result Record → Delivered Record → Type 0
  Promised subject false res got =
      got
      ≡ status_is (record {
        code = 7;
        message =
            bytes_of subject
            ++ bytes_of " not permitted to "
            ++ bytes_of "consume"
            ++ bytes_of " to *";
        details = [];
      })
  Promised subject true (ok r) got = got ≡ message r
  Promised subject true (err (out_of_range off)) got =
      (st : Status) × (got ≡ status_is st)
      × (st.code ≡ 404)
      × (st.message ≡ bytes_of "offset out of range: " ++ decimal off)
  Promised subject true (err x) got = got ≡ status_is (grpc.convert none (text x))

  denied_lem :
      (subject : String)
      → denied subject consume ≡ record {
        code = 7;
        message =
            bytes_of subject
            ++ bytes_of " not permitted to "
            ++ bytes_of "consume"
            ++ bytes_of " to *";
        details = [];
      }
  denied_lem subject = refl

  refused_status :
      (subject : String) (x : Error)
      → Appended attach
      → Promised subject true (err x) (status_is (status_of x))
  refused_status subject (out_of_range off) law =
      let (code, message_) = grpc_status-code decimal attach off law in
      (
        grpc_status decimal attach off,
        ap status_is (grpc.takes_own (grpc_status decimal attach off) (text (out_of_range off))),
        code,
        message_,
      )
  refused_status subject eof law = refl
  refused_status subject unexpected_eof law = refl
  refused_status subject io_failure law = refl
  refused_status subject invalid_size law = refl
  refused_status subject not_exist law = refl
  refused_status subject bad_record law = refl
  refused_status subject panic law = refl

  delivered_if :
      (subject : String) (allowed : Bool) (res : Result Record) (e e' : Env)
      → Appended attach
      → Promised subject allowed res (
          delivered subject consume
            (if◌then◌else◌ {A = Outcome Record × Env} allowed
              (answered (of_result res), e')
              (answered (refused permission_denied), e)).0)
  delivered_if subject true (ok r) e e' law = refl
  delivered_if subject true (err x) e e' law = refused_status subject x law
  delivered_if subject false res e e' law = ap status_is (
      grpc.takes_own (denied subject consume) (denied subject consume).message ∙ denied_lem subject)

  kept_if :
      (P : Env → Type 0) {A : Type 0} (allowed : Bool) (a b : A) (e e' : Env)
      → P e
      → P e'
      → P (if◌then◌else◌ {A = A × Env} allowed (a, e') (b, e)).1
  kept_if P true a b e e' p p' = p'
  kept_if P false a b e e' p p' = p

  -- Consume over a node's sound log, of a peer with a subject, where gRPC takes the status that an error
  -- has. A subject that may not consume gets a status of the code 7, PermissionDenied, with Authorize's
  -- message; any other gets the record that Read is expected to give, or, where it is expected to refuse
  -- the offset, a status of the code 404 whose message names the offset, whether or not the details
  -- could be attached to it. The log holds the same records after it.
  pub consume_call-Promised :
      (k : Codec) (enforce : Enforcer) (peer : Option Peer) (name : String) (e : Env) (n off : ℕ)
      (rss : List (List Record))
      → IsLog k e n rss
      → authenticate peer ≡ subject_is name
      → Appended attach
      → Promised name
          (enforce name consume)
          (expected n rss off)
          (delivered name consume (consume_call (node_log k) enforce peer off e).0)
        × IsLog k (consume_call (node_log k) enforce peer off e).1 n rss
  consume_call-Promised k enforce peer name e n off rss h is law =
      let call = consume_call_lem (node_log k) enforce peer name off e is in
      let (answer, holds) = read-expected k e n off rss h in
      let allowed = enforce name consume in
      (
        subst
            (λ res.
              Promised name allowed res
                (delivered name consume (consume_call (node_log k) enforce peer off e).0))
            answer
            (subst
              (λ (x : Outcome Record × Env).
                Promised name allowed (read k off e).0 (delivered name consume x.0))
              (sym call) (delivered_if name allowed (read k off e).0 e (read k off e).1 law)),
        subst (λ (x : Outcome Record × Env). IsLog k x.1 n rss) (sym call)
            (kept_if (λ t. IsLog k t n rss) allowed (answered (of_result (read k off e).0))
              (answered (refused permission_denied)) e (read k off e).1 h holds),
      )
