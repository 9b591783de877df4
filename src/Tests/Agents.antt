-- ===== src/Tests/Agents.antt =====
-- The client side, the membership, the agent and its configuration at concrete inputs.
use aphros.Base.{
  ℕ, ◌≡◌, ◌<◌, refl, Bool, true, none, some, List, [], ◌∷◌, ◌++◌, ◌+◌, arith, get_elem?,
}
use aphros.Result.{io_failure, ok, err}
use aphros.Picker.{Picker, build, marked, pick, produce_name, consume_name}
use aphros.Picker.Cycle.{picks, picks-Covers}
use aphros.Membership.{Member, joined, departed, Handler, State, not_leader, event_handler}
use aphros.Membership.Events.{event_handler-calls, run_calls, join_call, leave_call}
use aphros.Tls.{TlsConfig}
use aphros.Cluster.{Server, ServerInfo, Raft, get_servers}
use aphros.Cluster.Servers.{Membership, without}
use aphros.Fsm.{nothing}
use aphros.Resolver.{resolve_now, produce_reaches_leader}

abbrev three : Picker ℕ
three = record { leader = some 9; followers = 1 ∷ 2 ∷ 3 ∷ []; current = 4 }

picks-Covers_example :
    (i : ℕ) × (i < 3) × (get_elem? (picks consume_name 3 three) i ≡ some (some 2))
picks-Covers_example = picks-Covers consume_name three 1 2 refl refl (omega arith) refl

-- A handler that counts, and refuses every leave.
abbrev counting : Handler ℕ
counting = record { join = λ name addr n. (none, n + 1); leave = λ name n. (some not_leader, n) }

abbrev member : ℕ → Member
member n = record { name = n ∷ []; rpc_addr = 58 ∷ n ∷ [] }

abbrev start : State ℕ
start = record { inner = 0; lines = [] }

event_handler-calls_example :
    event_handler counting
      (1 ∷ [])
      (joined (member 1 ∷ member 2 ∷ []) ∷ departed (member 2 ∷ []) ∷ [])
      start
    ≡ run_calls counting (1 ∷ []) (join_call (member 2) ∷ leave_call (member 2) ∷ []) start
event_handler-calls_example =
    event_handler-calls counting (1 ∷ [])
      (joined (member 1 ∷ member 2 ∷ []) ∷ departed (member 2 ∷ []) ∷ []) start refl

abbrev tls_server : TlsConfig
tls_server = record {
  cert_file = 1 ∷ [];
  key_file = 2 ∷ [];
  ca_file = 3 ∷ [];
  server_address = [];
  server = true;
}

abbrev fixed : Raft (List Server)
fixed = record {
  apply = λ b s. (ok nothing, s);
  configuration = λ s. (ok s, s);
  remove_server = λ id s. (err io_failure, s);
  add_voter = λ id addr s. (err io_failure, s);
  leader = λ s. 8 ∷ [];
  leader_id = λ s. 2 ∷ [];
}

fixed_removed :
    (id : List ℕ) (s s' : List Server) → fixed.remove_server id s ≡ (ok tt, s') → s' ≡ without id s
fixed_removed id s s' h = cc

fixed_added :
    (id addr : List ℕ) (s s' : List Server)
    → fixed.add_voter id addr s ≡ (ok tt, s')
    → s' ≡ without id s ++ ((record { id = id; address = addr }) ∷ [])
fixed_added id addr s s' h = cc

abbrev fixed-Membership : Membership fixed
fixed-Membership = record {
  members = λ s. s;
  configuration_is = λ s. refl;
  removed = fixed_removed;
  added = fixed_added;
}

abbrev two_servers : List Server
two_servers =
    (record { id = 1 ∷ []; address = 7 ∷ [] }) ∷ (record { id = 2 ∷ []; address = 8 ∷ [] }) ∷ []

produce_reaches_leader_example :
    (servers : List ServerInfo) × (addresses : List (List ℕ × Bool)) × (get_servers fixed
        two_servers
      ≡ (ok servers, two_servers))
    × ((resolve_now (some servers) (record { addresses = none; errors = 0 })).addresses
        ≡ some addresses)
    × ((pick produce_name
          (build (marked addresses) (record { leader = none; followers = []; current = 0 })).1).0
        ≡ some (8 ∷ []))
produce_reaches_leader_example =
    produce_reaches_leader fixed fixed-Membership two_servers
      (record { addresses = none; errors = 0 })
      (record { leader = none; followers = []; current = 0 }) produce_name refl refl
