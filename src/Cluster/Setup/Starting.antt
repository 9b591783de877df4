-- ===== src/Cluster/Setup/Starting.antt =====
-- A node that starts on empty directories.
use aphros.Base.{
  ℕ, ◌-◌, ◌≡◌, refl, sym, ap, subst, ◌∙◌, ◌*◌, ◌^◌, Bool, false, inl, inr, List, [], ◌∷◌, arith,
}
use aphros.Result.{Result, ok, Exec, modify, ◌>>=◌, ◌>>◌, pure, >>=-ok, >>=-err, Result-cases}
use aphros.Api.{Codec}
use aphros.Disk.{Disk}
use aphros.Segment.{Segment}
use aphros.Segment.Creating.{CanCreate}
use aphros.Log
use aphros.Log.{with_defaults, last?, head?, or_panic, lowest_offset, highest_offset}
use aphros.Log.Appending.{highest_offset_lem}
use aphros.Log.Contents.{HoldsAll, Chained, IsLog}
use aphros.Log.Opening.{new_log-create}
use aphros.LogStore.{new_log_store, first_index, last_index}
use aphros.Cluster.Setup.{
  stable_dir, snapshot_dir, on_raft, RaftConfig, raft_config, bootstrap_if, Parts, Node, LogConfig,
  raft_log_config, there, on_around, on_raft_log, setup_log, start_raft, setup_raft,
  new_distributed_log,
}

one_empty :
    (k : Codec) (d : Disk) (n : ℕ) (ss : List Segment)
    → HoldsAll k d ss ([] ∷ [])
    → Chained n ss
    → (s : Segment) × (ss ≡ s ∷ []) × (s.base_offset ≡ n) × (s.next_offset ≡ n)
one_empty k d n [] h c = absurd h
one_empty k d n (s ∷ []) (h, _) (c, _) = (s, refl, c, omega (arith, h.next, c))
one_empty k d n (s ∷ (t ∷ ss)) (_, h) c = absurd h

-- An empty log, as Raft sees it.
fresh_indexes :
    (k : Codec) (e : Log.Env) (n : ℕ)
    → IsLog k e n ([] ∷ [])
    → (first_index e ≡ (ok n, e)) × (last_index e ≡ (ok (n - 1), e))
unfolding first_index last_index lowest_offset
fresh_indexes k e n h =
    let (s, only, base, next) = one_empty k e.disk n e.self.segments h.holds h.chained in
    (
      ap (λ ss. ((λ (e : Log.Env). (or_panic (head? ss), e)) >>= λ g. pure g.base_offset) e) only
          ∙ ap (λ m. (ok m, e)) base,
      >>=-ok highest_offset _ (highest_offset_lem e s (ap last? only))
          ∙ ap (λ m. (ok (m - 1), e)) next,
    )

-- The logs of a node as they were.
abbrev Same : {S : Type 0} → Node S → Node S → Type 0
Same n n' = (n'.log ≡ n.log) × (n'.raft_log ≡ n.raft_log)

abbrev Keeps : {S A : Type 0} → Exec (Node S) A → Type 0
Keeps {S} m = (n : Node S) → Same n (m n).1

Keeps-bind :
    {S A B : Type 0} (m : Exec (Node S) A) (f : A → Exec (Node S) B)
    → Keeps m
    → ((a : A) → Keeps (f a))
    → Keeps (m >>= f)
Keeps-bind {S} {A} m f h later n =
    let (log, raft_log) = h n in
    elim (Result-cases (m n).0) [
      | inl (a, is) ↦
          let (log', raft_log') = later a (m n).1 in
          let goes = >>=-ok m f {s = n} (ap (λ r. (r, (m n).1)) is) in
          (ap (λ r. r.1.log) goes ∙ log' ∙ log, ap (λ r. r.1.raft_log) goes ∙ raft_log' ∙ raft_log)
      | inr (x, is) ↦
          let stops = >>=-err m f {s = n} (ap (λ r. (r, (m n).1)) is) in
          (ap (λ r. r.1.log) stops ∙ log, ap (λ r. r.1.raft_log) stops ∙ raft_log)
    ]

-- What hashicorp/raft documents of NewRaft and HasExistingState: they only read the log.
pub record OnlyReads {S : Type 0} (parts : Parts S) : Type 0 where
  pub new_raft_reads :
      (config : RaftConfig) (e : Log.Env) (s : S) → (parts.new_raft config (e, s)).1.0 ≡ e
  pub has_state_reads : (e : Log.Env) (s : S) → (parts.has_existing_state (e, s)).1.0 ≡ e

bootstrap_if-Keeps :
    {S : Type 0} (parts : Parts S) (c : LogConfig) (config : RaftConfig) (has_state : Bool)
    → c.bootstrap ≡ false
    → Keeps (bootstrap_if parts c config has_state)
unfolding bootstrap_if
bootstrap_if-Keeps parts c config has_state follower n = rw follower (refl, refl)

start_raft-Keeps :
    {S : Type 0} (parts : Parts S) (c : LogConfig)
    → OnlyReads parts
    → c.bootstrap ≡ false
    → Keeps (start_raft parts c)
unfolding start_raft
start_raft-Keeps parts c reads follower =
    let config = raft_config c.raft parts.default_config in
    let checks = on_raft parts parts.has_existing_state >>= bootstrap_if parts c config in
    let starts = on_raft parts (parts.new_raft config) >> checks in
    let transports =
      modify (λ n. record n { around = parts.new_network_transport 5 (10 * 10 ^ 9) n.around })
      >> starts in
    let snapshots = on_around parts (parts.new_file_snapshot_store snapshot_dir 1) >> transports in
    let checks-Keeps : Keeps checks =
      Keeps-bind (on_raft parts parts.has_existing_state) (bootstrap_if parts c config)
        (λ n. (refl, reads.has_state_reads n.raft_log n.around))
        (λ has_state. bootstrap_if-Keeps parts c config has_state follower) in
    let starts-Keeps : Keeps starts =
      Keeps-bind (on_raft parts (parts.new_raft config)) (λ _. checks)
        (λ n. (refl, reads.new_raft_reads config n.raft_log n.around)) (λ _. checks-Keeps) in
    let transports-Keeps : Keeps transports =
      Keeps-bind
        (modify (λ n. record n { around = parts.new_network_transport 5 (10 * 10 ^ 9) n.around }))
        (λ _. starts) (λ n. (refl, refl)) (λ _. starts-Keeps) in
    let snapshots-Keeps : Keeps snapshots =
      Keeps-bind (on_around parts (parts.new_file_snapshot_store snapshot_dir 1)) (λ _. transports)
        (λ n. (refl, refl)) (λ _. transports-Keeps) in
    Keeps-bind (on_around parts (parts.new_bolt_store stable_dir)) (λ _. snapshots)
      (λ n. (refl, refl)) (λ _. snapshots-Keeps)

-- NewDistributedLog on two empty directories of a node that is not to bootstrap a cluster, where both
-- directories can be made, both logs can be opened, and what setupRaft calls over the empty log returns
-- no error: it succeeds, the node's log is empty and starts at the initial offset that is configured,
-- and Raft's log is empty and starts at 1: FirstIndex is 1 and LastIndex is 0.
pub new_distributed_log-create :
    {S : Type 0} (k : Codec) (parts : Parts S) (c : LogConfig) (n : Node S) (s₁ s₂ : S)
    → OnlyReads parts
    → c.bootstrap ≡ false
    → parts.mkdir_log n.around ≡ (ok tt, s₁)
    → parts.mkdir_raft_log s₁ ≡ (ok tt, s₂)
    → ((e e' : Log.Env)
        → IsLog k e' 1 ([] ∷ [])
        → (start_raft parts c (record { log = e; raft_log = e'; around = s₂ })).0 ≡ ok tt)
    → n.log.disk.names ≡ []
    → n.raft_log.disk.names ≡ []
    → CanCreate c.segment.initial_offset (with_defaults c.segment) (there n.log).disk
    → CanCreate 1 (with_defaults (raft_log_config c.segment)) (there n.raft_log).disk
    → (n' : Node S) × (new_distributed_log parts c n ≡ (ok tt, n'))
      × IsLog k n'.log c.segment.initial_offset ([] ∷ [])
      × IsLog k n'.raft_log 1 ([] ∷ [])
      × (first_index n'.raft_log ≡ (ok 1, n'.raft_log))
      × (last_index n'.raft_log ≡ (ok 0, n'.raft_log))
unfolding new_distributed_log setup_log setup_raft new_log_store
new_distributed_log-create {S} k parts c n s₁ s₂ reads follower made made' starts empty empty' can
      can' =
    let (e, opens, holds, _) = new_log-create k c.segment (there n.log).disk empty can in
    let (e', opens', holds', _) =
      new_log-create k (raft_log_config c.segment) (there n.raft_log).disk empty' can' in
    let (first, last) = fresh_indexes k e' 1 holds' in
    let n₁ : Node S = record { log = e; raft_log = n.raft_log; around = s₁ } in
    let n₂ : Node S = record { log = e; raft_log = e'; around = s₂ } in
    let n₃ = (start_raft parts c n₂).1 in
    let (kept, kept') = start_raft-Keeps parts c reads follower n₂ in
    (
      n₃,
      >>=-ok (setup_log parts c) (λ _. setup_raft parts c) {s = n} {s' = n₁}
            (>>=-ok (on_around parts parts.mkdir_log) _
                (ap (λ (x : Result (Unit {0}) × S). (x.0, record n { around = x.1 })) made)
              ∙ ap (λ (x : Result (Unit {0}) × Log.Env). (x.0, record n { log = x.1; around = s₁ }))
                  opens)
          ∙ >>=-ok (on_around parts parts.mkdir_raft_log) _ {s = n₁}
              (ap (λ (x : Result (Unit {0}) × S). (x.0, record n₁ { around = x.1 })) made')
          ∙ >>=-ok (on_raft_log parts (λ e. new_log_store (raft_log_config c.segment) e.disk))
              (λ _. start_raft parts c)
              {s = record { log = e; raft_log = there n.raft_log; around = s₂ }}
              (ap
                (λ (x : Result (Unit {0}) × Log.Env).
                  (x.0, record { log = e; raft_log = x.1; around = s₂ }))
                opens')
          ∙ ap (λ r. (r, n₃)) (starts e e' holds'),
      subst (λ l. IsLog k l c.segment.initial_offset ([] ∷ [])) (sym kept) holds,
      subst (λ l. IsLog k l 1 ([] ∷ [])) (sym kept') holds',
      subst (λ l. first_index l ≡ (ok 1, l)) (sym kept') first,
      subst (λ l. last_index l ≡ (ok 0, l)) (sym kept') last,
    )
