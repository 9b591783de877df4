-- ===== src/Agent/Setup.antt =====
-- internal/agent/agent.go: what New does, one setup after the other. Other packages' functions are the
-- fields of `Parts`, over the states `S` of what they make.
pub mod Addresses
use aphros.Base.{ℕ, ◌*◌, ◌^◌, Bool, Option, none, some, List, [], ◌∷◌, ◌++◌, if◌then◌else◌}
use aphros.Result.{Error, Result, ok, err, Exec, pure, lift, modify, ◌>>=◌, ◌>>◌}
use aphros.StreamLayer.{StreamLayer, new_stream_layer}
use aphros.Cluster.Setup.{LogConfig, RaftConfig}
use aphros.Membership.Starting
use aphros.Agent.{rpc_addr, new}

pub record Config (Tls : Type 0) : Type 0 where
  pub server_tls : Option Tls
  pub peer_tls : Option Tls
  pub data_dir : List ℕ
  pub bind_addr : List ℕ
  pub rpc_port : ℕ
  pub node_name : List ℕ
  pub start_join_addrs : Option (List (List ℕ))
  pub acl_model_file : List ℕ
  pub acl_policy_file : List ℕ
  pub bootstrap : Bool

-- `resolve` is net.ResolveTCPAddr, with the text of the address and the port; `listen` is net.Listen
-- and the multiplexer made of it; `new_server` takes the TLS configuration where there is one, and
-- `serve` is its Serve in another goroutine.
pub record Parts (S Tls : Type 0) : Type 0 where
  pub new_logger : Exec S (Unit {0})
  pub resolve : List ℕ → Result (List ℕ × ℕ)
  pub split : List ℕ → Option (List ℕ)
  pub decimal : ℕ → List ℕ
  pub listen : List ℕ → Exec S (Unit {0})
  pub match_raft : S → S
  pub new_distributed_log : List ℕ → StreamLayer Tls → LogConfig → Exec S (Unit {0})
  pub wait_for_leader : ℕ → Exec S (Unit {0})
  pub new_authorizer : List ℕ → List ℕ → Exec S (Unit {0})
  pub new_server : Option Tls → Exec S (Unit {0})
  pub serve : S → S
  pub new_membership : Starting.Config → Exec S (Unit {0})

module _ {S Tls : Type 0} (parts : Parts S Tls) where
  abbrev pub own_rpc_addr : Config Tls → Result (List ℕ)
  own_rpc_addr c = rpc_addr parts.split parts.decimal c.bind_addr c.rpc_port

  -- The listener is on the port for RPC, at the address that the bind address resolves to.
  abbrev pub listen_addr : Config Tls → List ℕ × ℕ → List ℕ
  listen_addr c (ip, port) = ip ++ (58 ∷ parts.decimal c.rpc_port)

  unfoldable pub setup_mux : Config Tls → Exec S (Unit {0})
  setup_mux c = do addr ← lift (parts.resolve c.bind_addr); parts.listen (listen_addr c addr)

  -- log.Config{} with what setupLog sets.
  abbrev pub log_config : Config Tls → List ℕ → LogConfig
  log_config c addr = record {
    raft = record {
      local_id = c.node_name;
      heartbeat_timeout = 0;
      election_timeout = 0;
      leader_lease_timeout = 0;
      commit_timeout = 10 ^ 9;
    };
    bind_addr = addr;
    bootstrap = c.bootstrap;
    segment = record { max_store_bytes = 0; max_index_bytes = 0; initial_offset = 0 };
  }

  unfoldable pub setup_log : Config Tls → Exec S (Unit {0})
  setup_log c = do
    modify parts.match_raft
    addr ← lift (own_rpc_addr c)
    parts.new_distributed_log c.data_dir (new_stream_layer c.server_tls c.peer_tls)
        (log_config c addr)
    if c.bootstrap then parts.wait_for_leader (3 * 10 ^ 9) else pure tt

  unfoldable pub setup_server : Config Tls → Exec S (Unit {0})
  setup_server c = do
    parts.new_authorizer c.acl_model_file c.acl_policy_file
    parts.new_server c.server_tls
    modify parts.serve

  abbrev pub membership_config : Config Tls → List ℕ → Starting.Config
  membership_config c addr = record {
    node_name = c.node_name;
    bind_addr = c.bind_addr;
    rpc_addr_tag = addr;
    start_join_addrs = c.start_join_addrs;
  }

  unfoldable pub setup_membership : Config Tls → Exec S (Unit {0})
  setup_membership c = do
    addr ← lift (own_rpc_addr c)
    parts.new_membership (membership_config c addr)

  unfoldable pub new_agent : Config Tls → Exec S (Unit {0})
  new_agent c =
      new parts.new_logger (setup_mux c) (setup_log c) (setup_server c) (setup_membership c)
