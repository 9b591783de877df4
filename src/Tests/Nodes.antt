-- ===== src/Tests/Nodes.antt =====
-- A node's addresses, its place in the cluster and its callers, at concrete inputs.
use aphros.Base.{ℕ, ◌≡◌, ◌⊎◌, refl, sym, ap, false, true, none, some, List, [], ◌∷◌, ◌++◌, arith}
use Prim.Native.String.{String}
use aphros.Result.{Error, io_failure, Exec, ok, err}
use aphros.Fsm.{nothing}
use aphros.Cluster.{Server, Raft, join, remove_conflicts}
use aphros.Cluster.Unique.{Unique, Changes, unchanged, joins, members-Unique}
use aphros.Cluster.Servers.{Membership, without, has_joined}
use aphros.Membership.{Member, State, joined, not_leader, event_handler}
use aphros.Membership.Joining.{cluster_handler, joined_under_raft_address}
use aphros.Agent.{rpc_addr}
use aphros.Agent.Setup.{Parts, Config, new_agent}
use aphros.Agent.Setup.Addresses.{colons, RefusesColons, new_agent_ipv6}
use aphros.Server.{CommitLog, reply}
use aphros.Server.Authentication.{
  Peer, tls_info, subject_is, authenticate, answered, produce_call, produce_call-authorized,
}
use aphros.Tests.Samples.{note}

-- A listener that counts colons, for addresses without brackets.
abbrev listen : List ℕ → Exec ℕ (Unit {0})
listen addr s = elim (colons addr) [
  | ℕ.zero ↦ (err io_failure, s)
  | ℕ.suc n ↦ elim n [ ℕ.zero ↦ (ok tt, s) | ℕ.suc m ↦ (err io_failure, s) ]
]

abbrev parts : Parts ℕ ℕ
parts = record {
  new_logger = λ s. (ok tt, s);
  resolve = λ addr. ok (58 ∷ 58 ∷ 49 ∷ [], 8401);
  split = λ addr. some (58 ∷ 58 ∷ 49 ∷ []);
  decimal = λ n. 56 ∷ [];
  listen = listen;
  match_raft = λ s. s;
  new_distributed_log = λ dir layer c s. (ok tt, s);
  wait_for_leader = λ n s. (ok tt, s);
  new_authorizer = λ model policy s. (ok tt, s);
  new_server = λ t s. (ok tt, s);
  serve = λ s. s;
  new_membership = λ c s. (ok tt, s);
}

parts-RefusesColons : RefusesColons parts
parts-RefusesColons addr s bare many = (io_failure, s, ground arith)

-- An agent that binds to [::1]:8401.
abbrev config : Config ℕ
config = record {
  server_tls = none;
  peer_tls = none;
  data_dir = [];
  bind_addr = 91 ∷ 58 ∷ 58 ∷ 49 ∷ 93 ∷ 58 ∷ 56 ∷ [];
  rpc_port = 8;
  node_name = 3 ∷ [];
  start_join_addrs = none;
  acl_model_file = [];
  acl_policy_file = [];
  bootstrap = false;
}

new_agent_ipv6_example : (x : Error) × (s₂ : ℕ) × (new_agent parts config 0 ≡ (err x, s₂))
new_agent_ipv6_example =
    new_agent_ipv6 parts config (58 ∷ 49 ∷ []) 58 8401 0 0 parts-RefusesColons refl refl
      (omega arith) (λ e. absurd (omega arith))

abbrev servers_only : Raft (List Server)
servers_only = record {
  apply = λ b s. (ok nothing, s);
  configuration = λ s. (ok s, s);
  remove_server = λ id s. (ok tt, without id s);
  add_voter = λ id addr s. (ok tt, without id s ++ ((record { id = id; address = addr }) ∷ []));
  leader = λ s. [];
  leader_id = λ s. [];
}

abbrev servers_only-Membership : Membership servers_only
servers_only-Membership = record {
  members = λ s. s;
  configuration_is = λ s. refl;
  removed = λ id s s' h. ap (λ o. o.1) (sym h);
  added = λ id addr s s' h. ap (λ o. o.1) (sym h);
}

abbrev known : Server
known = record { id = 1 ∷ []; address = 8 ∷ [] }

abbrev advertised : List ℕ
advertised = 58 ∷ 58 ∷ 49 ∷ 58 ∷ 56 ∷ []

abbrev newcomer : Member
newcomer = record { name = 3 ∷ []; rpc_addr = advertised }

abbrev before : State (List Server)
before = record { inner = known ∷ []; lines = [] }

joined_under_raft_address_example :
    (event_handler
      (cluster_handler (λ x. not_leader) servers_only)
      (1 ∷ [])
      (joined (newcomer ∷ []) ∷ [])
      before).inner
    ≡ known ∷ (record { id = 3 ∷ []; address = advertised }) ∷ []
joined_under_raft_address_example =
    joined_under_raft_address parts config servers_only servers_only-Membership (λ x. not_leader)
      (1 ∷ []) advertised advertised newcomer before
      (known ∷ (record { id = 3 ∷ []; address = advertised }) ∷ []) (unfold rpc_addr in refl)
      (unfold rpc_addr in refl) refl refl refl (unfold join remove_conflicts in refl)

-- A server that joins, and one that comes back under its address with another ID.
abbrev one : Server
one = record { id = 2 ∷ []; address = 6 ∷ [] }

abbrev moved : Server
moved = record { id = 4 ∷ []; address = 6 ∷ [] }

one_joined : Changes servers_only servers_only-Membership [] (one ∷ [])
unfolding join remove_conflicts
one_joined = joins one unchanged refl

members-Unique_example :
    Unique (one ∷ []) × Unique (moved ∷ []) × (has_joined (4 ∷ []) (6 ∷ []) (moved ∷ []) ≡ true)
members-Unique_example =
    members-Unique servers_only servers_only-Membership [] (one ∷ []) (moved ∷ []) moved tt
      one_joined (unfold join remove_conflicts in refl)

-- A log that counts its records, and the subject root, who may do everything.
abbrev counter : CommitLog ℕ
counter = record { append = λ r n. (ok n, ℕ.suc n); read = λ off n. (err io_failure, n) }

abbrev root_peer : Peer
root_peer = record { auth_info = some (tls_info (("root" ∷ []) ∷ [])) }

produce_call-authorized_example :
    ((name : String) × (authenticate (some root_peer) ≡ subject_is name)
      × (true ≡ true)
      × (produce_call counter (λ name action. true) (some root_peer) (some (note 1)) 4
          ≡ (answered (reply 4), 5)))
    ⊎ ((produce_call counter (λ name action. true) (some root_peer) (some (note 1)) 4).1 ≡ 4)
produce_call-authorized_example =
    produce_call-authorized counter (λ name action. true) (some root_peer) (some (note 1)) 4
