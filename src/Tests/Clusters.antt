-- ===== src/Tests/Clusters.antt =====
-- The cluster at concrete inputs.
use aphros.Base.{
  true, ◌⊎◌, ℕ, ◌≡◌, refl, sym, ap, ◌∙◌, false, Option, none, some, List, [], ◌∷◌, ◌++◌, arith,
}
use aphros.Disk
use aphros.Store
use aphros.Segment
use aphros.Result.{out_of_range, Error, panic, ok, err}
use aphros.Api.{Record}
use aphros.Segment.{is_maxed}
use aphros.Index
use aphros.Log
use aphros.Log.{Env}
use aphros.Log.Lifecycle.{reset_never}
use aphros.Fsm
use aphros.Fsm.{RequestCodec, Answer, produced, answer_of, nothing, restore, restore_loop}
use aphros.Fsm.Apply.{apply-append}
use aphros.Fsm.Replicas.{Applying, done, next, replicas_agree}
use aphros.Log.Representing.{append-Represents, Represents}
use aphros.Tests.Histories.{first, empty-Ready}
use aphros.Fsm.Restore.{restore_loop_enough}
use aphros.Cluster
use aphros.Cluster.{Server, Raft, join, remove_conflicts}
use aphros.Server.{reply, refused, of_log}
use aphros.Server.Authentication.{
  Peer, tls_info, answered, authenticate, produce_call, consume_call,
}
use aphros.Server.EndToEnd.{distributed_log, consume_after_produce}
use aphros.Cluster.Commit.{append_committed}
use aphros.Cluster.Servers.{Membership, without}
use aphros.LogStore.Batches.{more, stored, get_log-store_logs}
use aphros.LogStore.{
  Entry, store_logs, store_log, get_log, get_log-store_log, delete_range, delete_range_all,
  first_index, last_index,
}
use aphros.Tests.Samples.{
  empty_log, plain, plain_marshal, plain_unmarshal, plain_law, note, note_bytes, full_log, open_log,
  open_segment,
}
use aphros.Tests.Facts.{open_log-IsLog, empty_log-Represents}

reset_never_example : (x : Error) × (e' : Env) × (Log.reset full_log ≡ (err x, e'))
reset_never_example = reset_never full_log

-- A snapshot of one record.
abbrev snapshot : List ℕ
snapshot = 0 ∷ 0 ∷ 0 ∷ 0 ∷ 0 ∷ 0 ∷ 0 ∷ 4 ∷ note_bytes 0

restore_loop_enough_example :
    restore_loop plain 12 0 snapshot full_log ≡ restore_loop plain 30 0 snapshot full_log
restore_loop_enough_example =
    restore_loop_enough plain 12 30 0 snapshot full_log (omega arith) (omega arith)

abbrev request_marshal : Option Record → Option (List ℕ)
request_marshal none = some []
request_marshal (some r) = plain_marshal r

abbrev request_unmarshal : List ℕ → Option (Option Record)
request_unmarshal [] = some none
request_unmarshal (b ∷ bs) = elim (plain_unmarshal (b ∷ bs)) [
  | none ↦ none
  | some r ↦ some (some r)
]

request_law :
    (r : Option Record) (p : List ℕ) → request_marshal r ≡ some p → request_unmarshal p ≡ some r
request_law none [] h = refl
request_law none (b ∷ bs) h = cc
request_law (some r) [] h = cc
request_law (some r) (b ∷ bs) h =
    ap (λ o. elim o [ none ↦ none | some r ↦ some (some r) ]) (plain_law r (b ∷ bs) h)

abbrev requests : RequestCodec
requests = record {
  marshal = request_marshal;
  unmarshal = request_unmarshal;
  unmarshal-marshal = request_law;
}

-- A cluster of one node, which commits at once.
abbrev alone : Raft Env
alone = record {
  apply = λ b e. Fsm.apply plain requests b e;
  configuration = λ e. (ok [], e);
  remove_server = λ id e. (ok tt, e);
  add_voter = λ id addr e. (ok tt, e);
  leader = λ e. [];
  leader_id = λ e. [];
}

append_committed_example :
    Cluster.append alone requests (some (note 9)) open_log ≡ Log.append plain (note 9) open_log
append_committed_example =
    append_committed plain requests alone (note 9) (9 ∷ 1 ∷ 0 ∷ 7 ∷ []) open_log refl refl

one_entry : Applying plain requests empty_log (note 9 ∷ []) (produced 0 ∷ []) first.0
one_entry =
    next (note 9) (9 ∷ 1 ∷ 0 ∷ 7 ∷ []) (produced 0) refl (empty-Ready 9)
      (apply-append plain requests (note 9) (9 ∷ 1 ∷ 0 ∷ 7 ∷ []) empty_log refl
        ∙ ap (λ x. answer_of x.0 x.1) first.1)
      done

replicas_agree_example :
    ((produced 0 ∷ []) ≡ produced 0 ∷ [])
    × Represents plain first.0 0 (note 9 ∷ [])
    × Represents plain first.0 0 (note 9 ∷ [])
replicas_agree_example =
    replicas_agree plain requests empty_log first.0 empty_log first.0 0 [] (note 9 ∷ [])
      (produced 0 ∷ []) (produced 0 ∷ []) empty_log-Represents empty_log-Represents one_entry
      one_entry

-- A cluster that is its list of servers.
abbrev servers_only : Raft (List Server)
servers_only = record {
  apply = λ b s. (ok nothing, s);
  configuration = λ s. (ok s, s);
  remove_server = λ id s. (ok tt, without id s);
  add_voter = λ id addr s. (ok tt, without id s ++ ((record { id = id; address = addr }) ∷ []));
  leader = λ s. 9 ∷ [];
  leader_id = λ s. 9 ∷ [];
}

abbrev servers_only-Membership : Membership servers_only
servers_only-Membership = record {
  members = λ s. s;
  configuration_is = λ s. refl;
  removed = λ id s s' h. ap (λ o. o.1) (sym h);
  added = λ id addr s s' h. ap (λ o. o.1) (sym h);
}

abbrev server_at : ℕ → ℕ → Server
server_at i a = record { id = i ∷ []; address = a ∷ [] }

open_has_room : is_maxed open_segment ≡ false
unfolding is_maxed Index.is_maxed
open_has_room = refl

abbrev entry : Entry
entry = record { index = 4; term = 1; kind = 0; data_ = 7 ∷ [] }

get_log-store_log_example :
    (off : ℕ) × (e' : Env) × (e'' : Env) × (store_log plain entry open_log ≡ (ok tt, e'))
    × (get_log plain off e' ≡ (ok (record entry { index = off }), e''))
get_log-store_log_example =
    get_log-store_log plain open_log 0 ((note 0 ∷ []) ∷ []) (note 0 ∷ []) open_segment entry
      (note_bytes 1) open_log-IsLog refl refl (omega arith)
      (record {
        encodes = refl;
        nonempty = omega arith;
        small = omega arith;
        store_room = omega arith;
        no_wrap = omega arith;
      })
      open_has_room (omega arith)

deleted : (e' : Env) × (delete_range 0 7 full_log ≡ (ok tt, e'))
deleted = (
  (delete_range 0 7 full_log).1,
  unfold delete_range Log.truncate Log.truncate_in Segment.remove Segment.close Index.close
        Store.close Store.flush Store.flush_pending Disk.remove_file Disk.find_name
        Disk.drop_name in
      refl,
)

delete_range_all_example :
    (deleted.0.self.segments ≡ [])
    × (first_index deleted.0 ≡ (err panic, deleted.0))
    × (last_index deleted.0 ≡ (err panic, deleted.0))
delete_range_all_example = delete_range_all 0 7 full_log deleted.0 (refl, tt) deleted.1

-- The first entry of an empty log.
abbrev first_entry : Entry
first_entry = record { index = 0; term = 1; kind = 0; data_ = 7 ∷ [] }

first_stored :
    (e' : Env) × (Log.append plain (note 0) empty_log ≡ (ok 0, e'))
    × Represents plain e' 0 (note 0 ∷ [])
first_stored = append-Represents plain empty_log 0 [] (note 0) empty_log-Represents (empty-Ready 0)

get_log-store_logs_example :
    (store_logs plain (first_entry ∷ []) empty_log ≡ (ok tt, first_stored.0))
    × (((get_log plain 0 first_stored.0).0 ≡ ok first_entry)
        ⊎ ((get_log plain 0 first_stored.0).0 ≡ err (out_of_range 0)))
get_log-store_logs_example =
    get_log-store_logs plain empty_log first_stored.0 0 0 [] (first_entry ∷ []) first_entry
      empty_log-Represents (more first_entry 0 (empty-Ready 0) first_stored.1 stored) refl refl
      (omega arith)

-- The subject root, of a client's certificate, and the client without one.
abbrev root_peer : Option Peer
root_peer = some (record { auth_info = some (tls_info (("root" ∷ []) ∷ [])) })

abbrev bare_peer : Option Peer
bare_peer = some (record { auth_info = none })

consume_after_produce_example :
    (e' : Env) × (produce_call
        (distributed_log plain requests alone)
        (λ subject action. true)
        root_peer
        (some (note 9))
        empty_log
      ≡ (answered (reply 0), e'))
    × Represents plain e' 0 (note 9 ∷ [])
    × (((consume_call
            (distributed_log plain requests alone)
            (λ subject action. true)
            bare_peer
            0
            e').0
          ≡ answered (reply (note 0)))
        ⊎ ((consume_call
              (distributed_log plain requests alone)
              (λ subject action. true)
              bare_peer
              0
              e').0
            ≡ answered (refused (of_log (out_of_range 0)))))
consume_after_produce_example =
    consume_after_produce plain requests alone (λ subject action. true) root_peer bare_peer "root"
      "" empty_log 0 [] (note 9) (9 ∷ 1 ∷ 0 ∷ 7 ∷ []) empty_log-Represents (empty-Ready 9) refl refl
      (unfold authenticate in refl) refl (unfold authenticate in refl) refl
