-- ===== src/Tests/Histories.antt =====
-- Logs over time, at concrete inputs.
use aphros.Base.{ℕ, ◌≡◌, refl, false, none, [], ◌∷◌, arith, inr}
use aphros.Result.{ok, err, out_of_range}
use aphros.Index
use aphros.Segment.{is_maxed}
use aphros.Log
use aphros.Log.{append, read, close, new_log, highest_offset, truncate}
use aphros.Log.Contents.{IsLog}
use aphros.Log.Refusing.{read-outside}
use aphros.Log.History.{
  History, opened, appended, looked, Answers, history-Represents, read_after_history,
  append_after_history,
}
use aphros.Log.Representing.{Ready, room, Represents, append-Represents}
use aphros.Log.Truncating.{truncate_keeps}
use aphros.LogStore.{first_index, last_index}
use aphros.Cluster.Setup.{Parts, Node, LogConfig, new_distributed_log, start_raft, bootstrap_if}
use aphros.Cluster.Setup.Starting.{new_distributed_log-create}
use aphros.Tests.Samples.{
  full_segment, second_segment, two_log, plain, note, note_bytes, empty_segment, empty_log,
  wide_limits, bare_disk,
}
use aphros.Tests.TwoSegments.{two_log-IsLog, full-CanRemove}
use aphros.Tests.Facts.{empty_log-IsLog, empty_log-Represents, empty-Fits, bare-CanCreate}

empty_is_not_maxed : is_maxed empty_segment ≡ false
unfolding is_maxed Index.is_maxed
empty_is_not_maxed = refl

pub empty-Ready : (n : ℕ) → Ready plain empty_log (note n)
empty-Ready n = room empty_segment (note_bytes 0) refl empty_is_not_maxed (empty-Fits n)

-- A Read of an empty log, and then an Append.
looked_first : History plain empty_log [] empty_log
looked_first =
    looked 5 (err (out_of_range 5)) opened
      (read-outside plain empty_log 0 5 ([] ∷ []) empty_log-IsLog (inr (omega arith)))

pub first :
    (e' : Log.Env) × (append plain (note 9) empty_log ≡ (ok 0, e'))
    × Represents plain e' 0 (note 9 ∷ [])
first = append-Represents plain empty_log 0 [] (note 9) empty_log-Represents (empty-Ready 9)

then_appended : History plain empty_log (note 9 ∷ []) first.0
then_appended = appended (note 9) (ok 0) looked_first (empty-Ready 9) first.1

history-Represents_example : Represents plain first.0 0 (note 9 ∷ [])
history-Represents_example =
    history-Represents plain empty_log first.0 0 (note 9 ∷ []) empty_log-Represents then_appended

read_after_history_example : Answers 0 (note 9 ∷ []) 0 (read plain 0 first.0).0
read_after_history_example =
    read_after_history plain empty_log first.0 0 0 (note 9 ∷ []) empty_log-Represents then_appended

append_after_history_example : (append plain (note 9) empty_log).0 ≡ ok 0
append_after_history_example =
    append_after_history plain empty_log empty_log 0 [] (note 9) empty_log-Represents looked_first
      (empty-Ready 9)

truncate_keeps_example :
    (e' : Log.Env) × (truncate 0 two_log ≡ (ok tt, e'))
    × (e'.self.segments ≡ second_segment ∷ [])
    × IsLog plain e' 1 ((note 1 ∷ []) ∷ [])
truncate_keeps_example =
    truncate_keeps plain 0 0 two_log (full_segment ∷ []) [] second_segment ((note 0 ∷ []) ∷ [])
      ((note 1 ∷ []) ∷ []) two_log-IsLog refl refl (refl, tt) refl (full-CanRemove, tt, tt)

-- Parts that start at once.
abbrev parts : Parts ℕ
parts = record {
  mkdir_log = λ s. (ok tt, s);
  mkdir_raft_log = λ s. (ok tt, s);
  new_bolt_store = λ d s. (ok tt, s);
  new_file_snapshot_store = λ d n s. (ok tt, s);
  new_network_transport = λ pool timeout s. s;
  default_config = record {
    local_id = [];
    heartbeat_timeout = 1;
    election_timeout = 1;
    leader_lease_timeout = 1;
    commit_timeout = 1;
  };
  new_raft = λ c s. (ok tt, s);
  has_existing_state = λ s. (ok false, s);
  bootstrap_cluster = λ servers s. (ok tt, s);
  shutdown = λ s. (ok tt, s);
}

abbrev log_config : LogConfig
log_config = record {
  raft = record {
    local_id = 1 ∷ [];
    heartbeat_timeout = 0;
    election_timeout = 0;
    leader_lease_timeout = 0;
    commit_timeout = 5;
  };
  bind_addr = 7 ∷ [];
  bootstrap = false;
  segment = record { max_store_bytes = 0; max_index_bytes = 0; initial_offset = 3 };
}

abbrev bare_log : Log.Env
bare_log = record {
  self = record { config = wide_limits; segments = []; active = none };
  disk = bare_disk;
}

abbrev node : Node ℕ
node = record { log = bare_log; raft_log = bare_log; around = 0 }

new_distributed_log-create_example :
    (n' : Node ℕ) × (new_distributed_log parts log_config node ≡ (ok tt, n'))
    × IsLog plain n'.log 3 ([] ∷ [])
    × IsLog plain n'.raft_log 1 ([] ∷ [])
    × (first_index n'.raft_log ≡ (ok 1, n'.raft_log))
    × (last_index n'.raft_log ≡ (ok 0, n'.raft_log))
new_distributed_log-create_example =
    new_distributed_log-create plain parts log_config node 0 0
      (record { new_raft_reads = λ config e s. refl; has_state_reads = λ e s. refl }) refl refl refl
      (λ e e' h. unfold start_raft in (unfold bootstrap_if in refl)) refl refl
      (bare-CanCreate 3 _ (omega arith) (omega arith) (omega arith))
      (bare-CanCreate 1 _ (omega arith) (omega arith) (omega arith))
