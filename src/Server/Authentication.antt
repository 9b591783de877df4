-- ===== src/Server/Authentication.antt =====
-- internal/server/server.go: authenticate, which the interceptors call before every handler, subject,
-- and GetServers.
use aphros.Base.{
  ℕ, ◌⊎◌, ◌≡◌, refl, ap, ◌∙◌, Bool, Bool-cases, inl, inr, true, false, Option, none, some, List, [],
  ◌∷◌, if◌then◌else◌,
}
use Prim.Native.String.{String}
use aphros.Api.{Record}
use aphros.Result.{Result}
use aphros.Cluster.{ServerInfo}
use aphros.Server.{
  CommitLog, Enforcer, Response, refused, of_result, produce, consume, handle_produce,
  handle_consume, permission_denied, authorization,
}

-- credentials.TLSInfo with the common names of the verified chains, and any other AuthInfo.
pub data AuthInfo : Type 0 where
  tls_info : List (List String) → AuthInfo
  other_info : AuthInfo

-- The peer of a call, and whether it showed who it is.
pub record Peer : Type 0 where
  pub auth_info : Option AuthInfo

-- What authenticate gives: the subject that it puts into the context, the error Unknown, or a panic
-- where there is no first certificate or the AuthInfo is another.
pub data Authenticated : Type 0 where
  subject_is : String → Authenticated
  unknown_peer crashed : Authenticated

abbrev pub first_name : List (List String) → Authenticated
first_name [] = crashed
first_name ([] ∷ chains) = crashed
first_name ((name ∷ chain) ∷ chains) = subject_is name

abbrev pub of_info : Option AuthInfo → Authenticated
of_info none = subject_is ""
of_info (some (tls_info chains)) = first_name chains
of_info (some other_info) = crashed

unfoldable pub authenticate : Option Peer → Authenticated
authenticate none = unknown_peer
authenticate (some p) = of_info p.auth_info

-- What a client gets of a call.
pub data Outcome (A : Type 0) : Type 0 where
  answered : Response A → Outcome A
  unknown crash : Outcome A

-- A handler behind the interceptor; `subject` of the context is what authenticate put there.
abbrev pub intercepted :
    {S A : Type 0} → (String → S → Response A × S) → Authenticated → S → Outcome A × S
intercepted handler unknown_peer s = (unknown, s)
intercepted handler crashed s = (crash, s)
intercepted handler (subject_is name) s = let (r, s') = handler name s in (answered r, s')

-- No subject.
abbrev Nobody : Authenticated → Type 0
Nobody a = (a ≡ unknown_peer) ⊎ (a ≡ crashed)

Authenticated-cases : (a : Authenticated) → ((name : String) × (a ≡ subject_is name)) ⊎ Nobody a
Authenticated-cases (subject_is name) = inl (name, refl)
Authenticated-cases unknown_peer = inr (inl refl)
Authenticated-cases crashed = inr (inr refl)

intercepted-Nobody :
    {S A : Type 0} (handler : String → S → Response A × S) (s : S) (a : Authenticated)
    → Nobody a
    → (intercepted handler a s).1 ≡ s
intercepted-Nobody {S} {A} handler s a (inl is) =
    ap (λ b. (intercepted {S = S} {A = A} handler b s).1) is
intercepted-Nobody {S} {A} handler s a (inr is) =
    ap (λ b. (intercepted {S = S} {A = A} handler b s).1) is

answered_if :
    {S A : Type 0} (b : Bool) (x y : Response A × S)
    → ◌≡◌ {A = Outcome A × S}
        (answered (if b then x else y).0, (if b then x else y).1)
        (if b then (answered x.0, x.1) else (answered y.0, y.1))
answered_if true x y = refl
answered_if false x y = refl

module _ {S : Type 0} (log : CommitLog S) (enforce : Enforcer) where
  unfoldable pub produce_call : Option Peer → Option Record → S → Outcome ℕ × S
  produce_call peer r s =
      intercepted (λ subject. handle_produce log enforce subject r) (authenticate peer) s

  unfoldable pub consume_call : Option Peer → ℕ → S → Outcome Record × S
  consume_call peer off s =
      intercepted (λ subject. handle_consume log enforce subject off) (authenticate peer) s

  pub produce_call_lem :
      (peer : Option Peer) (name : String) (r : Option Record) (s : S)
      → authenticate peer ≡ subject_is name
      → produce_call peer r s ≡ (
          if enforce name produce
          then (answered (of_result (log.append r s).0), (log.append r s).1)
          else (answered (refused permission_denied), s))
  unfolding produce_call
  produce_call_lem peer name r s is =
      ap (λ a. intercepted (λ subject. handle_produce log enforce subject r) a s) is
      ∙ ap (λ (x : Response ℕ × S). (answered x.0, x.1)) (authorization log enforce name r 0 s).0
      ∙ answered_if (enforce name produce) _ _

  pub consume_call_lem :
      (peer : Option Peer) (name : String) (off : ℕ) (s : S)
      → authenticate peer ≡ subject_is name
      → consume_call peer off s ≡ (
          if enforce name consume
          then (answered (of_result (log.read off s).0), (log.read off s).1)
          else (answered (refused permission_denied), s))
  unfolding consume_call
  consume_call_lem peer name off s is =
      ap (λ a. intercepted (λ subject. handle_consume log enforce subject off) a s) is
      ∙ ap (λ (x : Response Record × S). (answered x.0, x.1))
          (authorization log enforce name none off s).1
      ∙ answered_if (enforce name consume) _ _

  -- A call of Produce is of a peer whose subject the enforcer allows to produce, and is answered as the
  -- log's Append answers, with the log that it leaves; or it leaves the log as it was.
  pub produce_call-authorized :
      (peer : Option Peer) (r : Option Record) (s : S)
      → ((name : String) × (authenticate peer ≡ subject_is name)
          × (enforce name produce ≡ true)
          × (produce_call peer r s ≡ (answered (of_result (log.append r s).0), (log.append r s).1)))
        ⊎ ((produce_call peer r s).1 ≡ s)
  produce_call-authorized peer r s = elim (Authenticated-cases (authenticate peer)) [
    | inl (name, is) ↦
        let call = produce_call_lem peer name r s is in
        elim (Bool-cases (enforce name produce)) [
          | inl allowed ↦ inl (name, is, allowed, call ∙ rw allowed refl)
          | inr denied ↦ inr (ap (λ (x : Outcome ℕ × S). x.1) call ∙ rw denied refl)
        ]
    | inr nobody ↦ inr (
        unfold produce_call in
        intercepted-Nobody (λ subject. handle_produce log enforce subject r) s _ nobody)
  ]

-- GetServers, which asks nobody for leave.
module _ {S : Type 0} (servers : S → Result (List ServerInfo) × S) where
  pub handle_get_servers : String → S → Response (List ServerInfo) × S
  handle_get_servers subject s = let (r, s') = servers s in (of_result r, s')

  pub get_servers_call : Option Peer → S → Outcome (List ServerInfo) × S
  get_servers_call peer s = intercepted handle_get_servers (authenticate peer) s

  -- GetServers of any peer with a subject, also of one without TLS, gets the cluster's answer.
  pub get_servers_unasked :
      (peer : Peer) (s : S)
      → peer.auth_info ≡ none
      → get_servers_call (some peer) s ≡ (answered (of_result (servers s).0), (servers s).1)
  unfolding get_servers_call handle_get_servers authenticate
  get_servers_unasked peer s bare = ap (λ i. intercepted handle_get_servers (of_info i) s) bare
