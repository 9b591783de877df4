-- ===== src/Membership/Joining.antt =====
-- The distributed log as the handler of the membership: a node that Serf reports joins the cluster.
use aphros.Base.{ℕ, ◌≡◌, sym, ap, ◌∙◌, false, none, some, Option, List, [], ◌∷◌, ◌++◌}
use aphros.Result.{Error, Result, ok, err}
use aphros.Cluster
use aphros.Cluster.{Server, Raft}
use aphros.Cluster.Servers.{without, without_conflicts, has_joined, join-members}
use aphros.Cluster.Servers
use aphros.Membership.{
  Member, joined, Handler, Refusal, State, is_local, joins, event_handler, handle_join, log_error,
  failed_to_join,
}
use aphros.Agent.Setup
use aphros.Agent.Setup.{own_rpc_addr, log_config, membership_config}

-- DistributedLog's Join and Leave, `refusal_of` telling raft.ErrNotLeader from other errors.
abbrev pub refused_by : (Error → Refusal) → Result (Unit {0}) → Option Refusal
refused_by refusal_of (ok _) = none
refused_by refusal_of (err x) = some (refusal_of x)

pub cluster_handler : {S : Type 0} → (Error → Refusal) → Raft S → Handler S
cluster_handler refusal_of raft = record {
  join =
      λ name addr s. let (r, s') = Cluster.join raft name addr s in (refused_by refusal_of r, s');
  leave = λ name s. let (r, s') = Cluster.leave raft name s in (refused_by refusal_of r, s');
}

same_addr :
    {P Tls : Type 0} (parts : Setup.Parts P Tls) (c : Setup.Config Tls) (addr addr' : List ℕ)
    → own_rpc_addr parts c ≡ ok addr
    → own_rpc_addr parts c ≡ ok addr'
    → addr ≡ addr'
same_addr parts c addr addr' one two = let both : ok addr ≡ ok addr' = sym one ∙ two in cc

-- An agent's member, with the name and the tag that its setupMembership gives to Serf, is reported as
-- joined to another node, whose distributed log handles it; it is not in the cluster yet, and the Join
-- returns no error. Then the cluster's members are those of before, without every one that has its ID
-- or its address, and behind them the agent under the ID and the address that its own setupLog gives
-- to Raft.
pub joined_under_raft_address :
    {S P Tls : Type 0} (parts : Setup.Parts P Tls) (c : Setup.Config Tls) (raft : Raft S)
    (m : Servers.Membership raft) (refusal_of : Error → Refusal) (local_name addr addr' : List ℕ)
    (member : Member) (s : State S) (s' : S)
    → own_rpc_addr parts c ≡ ok addr
    → own_rpc_addr parts c ≡ ok addr'
    → member ≡ record {
      name = (membership_config parts c addr).node_name;
      rpc_addr = (membership_config parts c addr).rpc_addr_tag;
    }
    → is_local (cluster_handler refusal_of raft) local_name member ≡ false
    → has_joined member.name member.rpc_addr (m.members s.inner) ≡ false
    → Cluster.join raft member.name member.rpc_addr s.inner ≡ (ok tt, s')
    → m.members
        (event_handler
          (cluster_handler refusal_of raft)
          local_name
          (joined (member ∷ []) ∷ [])
          s).inner
      ≡ without member.name
          (without_conflicts member.name member.rpc_addr (m.members s.inner) (m.members s.inner))
        ++ ((record {
          id = (log_config parts c addr').raft.local_id;
          address = (log_config parts c addr').bind_addr;
        })
            ∷ [])
unfolding event_handler joins handle_join cluster_handler
joined_under_raft_address {S} parts c raft m refusal_of local_name addr addr' member s s' for_serf
      for_raft advertised remote fresh runs =
    let others =
      without member.name
        (without_conflicts member.name member.rpc_addr (m.members s.inner) (m.members s.inner)) in
    let handled : handle_join (cluster_handler refusal_of raft) local_name member s
        ≡ record { inner = s'; lines = s.lines } =
      ap
        (λ (x : Result (Unit {0}) × S). record {
          inner = x.1;
          lines = log_error (refused_by refusal_of x.0) failed_to_join member s.lines;
        })
        runs in
    rw remote (ap (λ (t : State S). m.members t.inner) handled)
    ∙ join-members raft m member.name member.rpc_addr s.inner s' fresh runs
    ∙ ap (λ (v : Member). others ++ ((record { id = v.name; address = v.rpc_addr }) ∷ []))
        advertised
    ∙ ap (λ a. others ++ ((record { id = c.node_name; address = a }) ∷ []))
        (same_addr parts c addr addr' for_serf for_raft)
