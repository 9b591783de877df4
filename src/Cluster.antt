-- ===== src/Cluster.antt =====
-- internal/log/distributed.go: the methods of DistributedLog over Raft, of which `raft` stands for what
-- they call, over the states `S` of the cluster.
pub mod Commit
pub mod Servers
pub mod Unique
pub mod Setup
use aphros.Base.{ℕ, ◌≡◌, Bool, ◌&&◌, ◌||◌, Option, none, some, List, [], ◌∷◌, ◌%◌, if◌then◌else◌}
use aphros.Base.Strings.{same_string}
use aphros.Result.{Error, bad_record, panic, Result, ok, err, Exec, pure, raise, ◌>>=◌, ◌>>◌}
use aphros.Api.{Record}
use aphros.Fsm.{RequestCodec, Answer, produced, failed, nothing}

pub record Server : Type 0 where
  pub id : List ℕ
  pub address : List ℕ

-- Futures are waited for at once: an error of the future is the error of the call. `leader` and
-- `leader_id` are what LeaderWithID returns.
pub record Raft (S : Type 0) : Type 0 where
  pub apply : List ℕ → Exec S Answer
  pub configuration : Exec S (List Server)
  pub remove_server : List ℕ → Exec S (Unit {0})
  pub add_voter : List ℕ → List ℕ → Exec S (Unit {0})
  pub leader : S → List ℕ
  pub leader_id : S → List ℕ

-- api.Server.
pub record ServerInfo : Type 0 where
  pub id : List ℕ
  pub rpc_addr : List ℕ
  pub is_leader : Bool

unfoldable pub infos : List ℕ → List Server → List ServerInfo
infos leader [] = []
infos leader (srv ∷ rest) =
    (record { id = srv.id; rpc_addr = srv.address; is_leader = same_string leader srv.address })
    ∷ infos leader rest

module _ {S : Type 0} (raft : Raft S) where
  -- An answer that is an error is returned as one.
  pub response : Answer → Exec S Answer
  response (failed x) = raise x
  response a = pure a

  pub offset_of : Answer → Exec S ℕ
  offset_of (produced off) = pure off
  offset_of a = raise panic

  pub marshalled : Option (List ℕ) → Exec S (List ℕ)
  marshalled none = raise bad_record
  marshalled (some b) = pure b

  pub apply : RequestCodec → ℕ → Option Record → Exec S Answer
  apply requests kind req = do
    b ← marshalled (requests.marshal req)
    a ← raft.apply ((kind % 256) ∷ b)
    response a

  -- AppendRequestType is 0.
  pub append : RequestCodec → Option Record → Exec S ℕ
  append requests req = do a ← apply requests 0 req; offset_of a

  -- The loop of Join, `true` where the server has joined already.
  unfoldable pub remove_conflicts : List ℕ → List ℕ → List Server → Exec S Bool
  remove_conflicts id addr [] = pure Bool.false
  remove_conflicts id addr (srv ∷ rest) =
      let go_on = remove_conflicts id addr rest in
      if same_string srv.id id || same_string srv.address addr
      then (if same_string srv.id id && same_string srv.address addr
          then pure Bool.true
          else (raft.remove_server srv.id >> go_on))
      else go_on

  unfoldable pub join : List ℕ → List ℕ → Exec S (Unit {0})
  join id addr = do
    servers ← raft.configuration
    already ← remove_conflicts id addr servers
    if already then pure tt else raft.add_voter id addr

  pub leave : List ℕ → Exec S (Unit {0})
  leave id = raft.remove_server id

  unfoldable pub get_servers : Exec S (List ServerInfo)
  get_servers = do servers ← raft.configuration; λ s. (ok (infos (raft.leader s) servers), s)

  -- The ticks that come before the timeout, each with the state that it finds; `true` is a leader.
  pub wait_for_leader : List S → Bool
  wait_for_leader [] = Bool.false
  wait_for_leader (s ∷ ticks) =
      let rest = wait_for_leader ticks in
      if same_string (raft.leader_id s) [] then rest else Bool.true
