-- ===== src/Cluster/Setup.antt =====
-- internal/log/distributed.go: NewDistributedLog, setupLog, setupRaft and Close. What they call of
-- raft and raft-boltdb, and os.MkdirAll, are the fields of `Parts`, over the states `S` of all of it;
-- durations are in nanoseconds.
pub mod Starting
use aphros.Base.{ℕ, ◌*◌, ◌^◌, Bool, true, ◌&&◌, List, [], ◌∷◌, ◌==◌, if◌then◌else◌}
use aphros.Result.{Exec, pure, modify, ◌>>=◌, ◌>>◌}
use mathlib.Core.Bool.{not}
use aphros.Log
use aphros.LogStore.{new_log_store}
use aphros.Segment.{Config}
use aphros.Cluster.{Server}

-- The fields of raft.Config that are set, 0 where the configuration of the log leaves them out.
pub record RaftConfig : Type 0 where
  pub local_id : List ℕ
  pub heartbeat_timeout : ℕ
  pub election_timeout : ℕ
  pub leader_lease_timeout : ℕ
  pub commit_timeout : ℕ

pub record LogConfig : Type 0 where
  pub raft : RaftConfig
  pub bind_addr : List ℕ
  pub bootstrap : Bool
  pub segment : Config

pub data Directory : Type 0 where
  stable_dir snapshot_dir : Directory

-- `mkdir_log` and `mkdir_raft_log` are os.MkdirAll of the directories of the two logs, and
-- `new_network_transport` gets the number of pooled connections and the timeout. What works on Raft's
-- log gets it, and can change it.
pub record Parts (S : Type 0) : Type 0 where
  pub mkdir_log : Exec S (Unit {0})
  pub mkdir_raft_log : Exec S (Unit {0})
  pub new_bolt_store : Directory → Exec S (Unit {0})
  pub new_file_snapshot_store : Directory → ℕ → Exec S (Unit {0})
  pub new_network_transport : ℕ → ℕ → S → S
  pub default_config : RaftConfig
  pub new_raft : RaftConfig → Exec (Log.Env × S) (Unit {0})
  pub has_existing_state : Exec (Log.Env × S) Bool
  pub bootstrap_cluster : List Server → Exec (Log.Env × S) (Unit {0})
  pub shutdown : Exec (Log.Env × S) (Unit {0})

-- The node's log, Raft's log, and the rest. Until a log is set up, it is one without segments, on the
-- disk that it will use.
pub record Node (S : Type 0) : Type 0 where
  pub log : Log.Env
  pub raft_log : Log.Env
  pub around : S

-- `if given != 0 { field = given }`.
abbrev pub given_or : ℕ → ℕ → ℕ
given_or given default = if given == 0 then default else given

unfoldable pub raft_config : RaftConfig → RaftConfig → RaftConfig
raft_config given default = record {
  local_id = given.local_id;
  heartbeat_timeout = given_or given.heartbeat_timeout default.heartbeat_timeout;
  election_timeout = given_or given.election_timeout default.election_timeout;
  leader_lease_timeout = given_or given.leader_lease_timeout default.leader_lease_timeout;
  commit_timeout = given_or given.commit_timeout default.commit_timeout;
}

-- Raft's own log starts at 1.
abbrev pub raft_log_config : Config → Config
raft_log_config c = record c { initial_offset = 1 }

-- A directory is there once MkdirAll has succeeded.
abbrev pub there : Log.Env → Log.Env
there e = record e { disk = record e.disk { present = true } }

module _ {S : Type 0} (parts : Parts S) where
  abbrev pub on_around : {A : Type 0} → Exec S A → Exec (Node S) A
  on_around m n = let (r, s) = m n.around in (r, record n { around = s })

  -- What Raft does, with its log.
  abbrev pub on_raft : {A : Type 0} → Exec (Log.Env × S) A → Exec (Node S) A
  on_raft m n =
      let (r, (e, s)) = m (n.raft_log, n.around) in (r, record n { raft_log = e; around = s })

  abbrev pub on_log : {A : Type 0} → Exec Log.Env A → Exec (Node S) A
  on_log m n = let (r, e) = m n.log in (r, record n { log = e })

  abbrev pub on_raft_log : {A : Type 0} → Exec Log.Env A → Exec (Node S) A
  on_raft_log m n = let (r, e) = m n.raft_log in (r, record n { raft_log = e })

  unfoldable pub setup_log : LogConfig → Exec (Node S) (Unit {0})
  setup_log c = do
    on_around parts.mkdir_log
    modify (λ n. record n { log = there n.log })
    on_log (λ e. Log.new_log c.segment e.disk)

  -- A cluster of this node alone, where there was nothing before.
  unfoldable pub bootstrap_if : LogConfig → RaftConfig → Bool → Exec (Node S) (Unit {0})
  bootstrap_if c config has_state =
      if c.bootstrap && not has_state
      then on_raft
          (parts.bootstrap_cluster ((record { id = config.local_id; address = c.bind_addr }) ∷ []))
      else pure tt

  -- setupRaft, once Raft's log is there.
  unfoldable pub start_raft : LogConfig → Exec (Node S) (Unit {0})
  start_raft c = do
    on_around (parts.new_bolt_store stable_dir)
    on_around (parts.new_file_snapshot_store snapshot_dir 1)
    modify (λ n. record n { around = parts.new_network_transport 5 (10 * 10 ^ 9) n.around })
    on_raft (parts.new_raft (raft_config c.raft parts.default_config))
    has_state ← on_raft parts.has_existing_state
    bootstrap_if c (raft_config c.raft parts.default_config) has_state

  unfoldable pub setup_raft : LogConfig → Exec (Node S) (Unit {0})
  setup_raft c = do
    on_around parts.mkdir_raft_log
    modify (λ n. record n { raft_log = there n.raft_log })
    on_raft_log (λ e. new_log_store (raft_log_config c.segment) e.disk)
    start_raft c

  unfoldable pub new_distributed_log : LogConfig → Exec (Node S) (Unit {0})
  new_distributed_log c = do setup_log c; setup_raft c

  unfoldable pub close : Exec (Node S) (Unit {0})
  close = do on_raft parts.shutdown; on_raft_log Log.close; on_log Log.close
