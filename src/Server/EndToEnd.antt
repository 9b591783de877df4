-- ===== src/Server/EndToEnd.antt =====
-- A node: the gRPC service over the distributed log, that over Raft, and that over the node's log.
use aphros.Base.{
  ℕ, ◌+◌, ◌≡◌, ◌⊎◌, inl, inr, refl, sym, ap, ◌∙◌, true, Option, some, List, [], ◌∷◌, ◌++◌, length,
  get_elem?, get_elem?-append_length, arith,
}
use Prim.Native.String.{String}
use aphros.Result.{Result, ok, err, out_of_range}
use aphros.Api.{Record, Codec}
use aphros.Segment.Appending.{at_offset}
use aphros.Log
use aphros.Log.{Env}
use aphros.Log.Representing.{Ready, Represents, append-Represents}
use aphros.Log.History.{Answers, found, refused, read-Represents}
use aphros.Fsm
use aphros.Fsm.{RequestCodec}
use aphros.Cluster
use aphros.Cluster.{Raft}
use aphros.Cluster.Commit.{append_committed}
use aphros.Server.{CommitLog, Enforcer, Response, produce, consume, reply, of_log, of_result}
use aphros.Server.Authentication.{
  Peer, Outcome, subject_is, authenticate, answered, produce_call, consume_call, produce_call_lem,
  consume_call_lem,
}

-- DistributedLog as the service's CommitLog.
abbrev pub distributed_log : Codec → RequestCodec → Raft Env → CommitLog Env
distributed_log k requests raft = record {
  append = Cluster.append raft requests;
  read = Log.read k;
}

-- What an answer to a Read of the last record comes to for the client.
last_answered :
    (n : ℕ) (rs : List Record) (r : Record) (res : Result Record)
    → Answers n (rs ++ (r ∷ [])) (n + length rs) res
    → (res ≡ ok (at_offset r (n + length rs))) ⊎ (res ≡ err (out_of_range (n + length rs)))
last_answered n rs r res (refused is) = inr is
last_answered n rs r res (found i x at has is) =
    let same : i ≡ length rs = omega arith in
    let here : some x ≡ some r =
      sym has ∙ ap (get_elem? (rs ++ (r ∷ []))) same ∙ get_elem?-append_length rs r [] in
    let record_same : x ≡ r = cc in
    inl (is ∙ ap (λ y. ok (at_offset y (n + length rs))) record_same)

-- A client whose subject may produce calls Produce, and one whose subject may consume calls
-- Consume at the offset that the first was given. The node's log is sound; the record's encoding
-- has a byte at least and can be allocated; the last segment has room for it, or is full, does
-- not end at 0, and a new one, with room for an entry, can be created; and no offset reaches
-- 2^64. The node's Raft answers the request, which can be encoded, with what Apply of the entry
-- answers on the node. Then Produce is answered with the offset behind the last, and the log
-- holds the record behind the others; Consume is then answered with the record, under that
-- offset, or that the offset is out of range.
pub consume_after_produce :
    (k : Codec) (requests : RequestCodec) (raft : Raft Env) (enforce : Enforcer)
    (producer consumer : Option Peer) (name name' : String) (e : Env) (n : ℕ) (rs : List Record)
    (r : Record) (b : List ℕ)
    → Represents k e n rs
    → Ready k e r
    → requests.marshal (some r) ≡ some b
    → raft.apply (0 ∷ b) e ≡ Fsm.apply k requests (0 ∷ b) e
    → authenticate producer ≡ subject_is name
    → enforce name produce ≡ true
    → authenticate consumer ≡ subject_is name'
    → enforce name' consume ≡ true
    → (e' : Env) × (produce_call (distributed_log k requests raft) enforce producer (some r) e
        ≡ (answered (reply (n + length rs)), e'))
      × Represents k e' n (rs ++ (r ∷ []))
      × (((consume_call (distributed_log k requests raft) enforce consumer (n + length rs) e').0
            ≡ answered (reply (at_offset r (n + length rs))))
          ⊎ ((consume_call (distributed_log k requests raft) enforce consumer (n + length rs) e').0
              ≡ answered (Response.refused (of_log (out_of_range (n + length rs))))))
consume_after_produce k requests raft enforce producer consumer name name' e n rs r b h ready
      encodes commits is may is' may' =
    let log = distributed_log k requests raft in
    let off = n + length rs in
    let (e', appends, holds) = append-Represents k e n rs r h ready in
    let runs : Cluster.append raft requests (some r) e ≡ (ok off, e') =
      append_committed k requests raft r b e encodes commits ∙ appends in
    let (res, t, reads, _, answer) = read-Represents k e' n (rs ++ (r ∷ [])) off holds in
    let consumed : (consume_call log enforce consumer off e').0 ≡ answered (of_result res) =
      ap (λ (x : Outcome Record × Env). x.0)
        (consume_call_lem log enforce consumer name' off e' is')
      ∙ rw may' refl
      ∙ ap (λ (x : Result Record × Env). answered (of_result x.0)) reads in
    (
      e',
      produce_call_lem log enforce producer name (some r) e is
          ∙ rw may (ap (λ (x : Result ℕ × Env). (answered (of_result x.0), x.1)) runs),
      holds,
      elim (last_answered n rs r res answer) [
        | inl got ↦ inl (consumed ∙ ap (λ x. answered (of_result x)) got)
        | inr lost ↦ inr (consumed ∙ ap (λ x. answered (of_result x)) lost)
      ],
    )
