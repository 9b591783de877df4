-- ===== src/Cluster/Commit.antt =====
-- Append through Raft.
use aphros.Base.{◌≡◌, refl, ap, ◌∙◌, ℕ, some, List, ◌∷◌}
use aphros.Result.{panic, Result, ok, err, ◌>>=◌}
use aphros.Api.{Record, Codec}
use aphros.Log
use aphros.Log.{Env}
use aphros.Fsm
use aphros.Fsm.Apply.{apply-append}
use aphros.Fsm.{RequestCodec, Answer, produced, failed, nothing, answer_of}
use aphros.Cluster.{Raft, append, apply, marshalled, offset_of, response}

-- What Append makes of an answer of Raft.
abbrev of_answer : Raft Env → Result Answer × Env → Result ℕ × Env
of_answer raft x = ((λ (e : Env). x) >>= response raft >>= offset_of raft) x.1

-- The answer of the state machine, taken back to a result.
answer_back : (raft : Raft Env) (r : Result ℕ) (e : Env) → of_answer raft (answer_of r e) ≡ (r, e)
unfolding response offset_of
answer_back raft (ok off) e = refl
answer_back raft (err panic) e = refl
answer_back raft (err x) e = refl

-- Where the request encodes and Raft answers it with what Apply of the entry answers on this node, DistributedLog's
-- Append is the Append of the node's log: the same offset or error, and the same log after it.
pub append_committed :
    (k : Codec) (requests : RequestCodec) (raft : Raft Env) (r : Record) (b : List ℕ) (e : Env)
    → requests.marshal (some r) ≡ some b
    → raft.apply (0 ∷ b) e ≡ Fsm.apply k requests (0 ∷ b) e
    → append raft requests (some r) e ≡ Log.append k r e
unfolding append apply marshalled
append_committed k requests raft r b e encodes commits =
    ap
      (λ o.
        ((marshalled raft o >>= λ b. raft.apply (0 ∷ b) >>= response raft) >>= offset_of raft) e)
      encodes
    ∙ ap (of_answer raft) (commits ∙ apply-append k requests r b e encodes)
    ∙ answer_back raft (Log.append k r e).0 (Log.append k r e).1
