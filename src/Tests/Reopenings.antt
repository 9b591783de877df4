-- ===== src/Tests/Reopenings.antt =====
-- Logs that are closed and opened again, at concrete inputs.
use aphros.Base.{◌+◌, ◌≡◌, refl, [], ◌∷◌, arith}
use aphros.Result.{ok, err, out_of_range}
use aphros.Log
use aphros.Log.{append, read, close, new_log, highest_offset}
use aphros.Log.Restarting.Durable.{CanRestart, restart_reads, restart_highest}
use aphros.Log.Restarting.Appending.{append_restarted}
use aphros.Log.Restarting.Crashing.{crash_hides}
use aphros.Tests.Samples.{plain, note, limits, second_segment, two_log}
use aphros.Tests.TwoSegments.{two_log-IsLog}
use aphros.Tests.Pairs.{
  pair_limits, pair_segment, pair_log, pair_log-IsLog, pair_log-CanRestart, pair_log-CanCrash,
}
use aphros.Api.{Record}
use aphros.Disk.{find_name}

two_log-CanRestart : CanRestart two_log ((note 0 ∷ []) ∷ (note 1 ∷ []) ∷ [])
two_log-CanRestart = record {
  present = refl;
  named = refl;
  sound = (refl, (refl, tt));
  fit = (omega arith, omega arith, (omega arith, omega arith, tt));
  small = omega arith;
}

restart_reads_example :
    (e₁ : Log.Env) × (e₂ : Log.Env) × (e₃ : Log.Env) × (close two_log ≡ (ok tt, e₁))
    × (new_log limits e₁.disk ≡ (ok tt, e₂))
    × (read plain (0 + 0) e₂ ≡ (ok (note 0), e₃))
restart_reads_example =
    restart_reads plain two_log 0 ((note 0 ∷ []) ∷ (note 1 ∷ []) ∷ []) limits second_segment
      two_log-IsLog two_log-CanRestart refl refl 0 (note 0) refl refl

-- The log of two records: its highest offset was 1, and is 0.
restart_highest_example :
    (e₁ : Log.Env) × (e₂ : Log.Env) × (close pair_log ≡ (ok tt, e₁))
    × (new_log pair_limits e₁.disk ≡ (ok tt, e₂))
    × (highest_offset pair_log ≡ (ok 1, pair_log))
    × (highest_offset e₂ ≡ (ok 0, e₂))
restart_highest_example =
    restart_highest plain pair_log 0 ((note 0 ∷ note 1 ∷ []) ∷ []) pair_limits pair_segment
      pair_log-IsLog pair_log-CanRestart refl refl (note 0 ∷ note 1 ∷ []) refl (omega arith)

-- A record of another value than the ones before; the Append returns the offset 1, and a Read of it
-- gives the old record.
abbrev newer : Record
newer = record { value = 8 ∷ []; offset = 0; term = 1; kind = 0 }

append_restarted_example :
    (e₁ : Log.Env) × (e₂ : Log.Env) × (e₃ : Log.Env) × (e₄ : Log.Env) × (close pair_log
      ≡ (ok tt, e₁))
    × (new_log pair_limits e₁.disk ≡ (ok tt, e₂))
    × (append plain newer e₂ ≡ (ok 1, e₃))
    × (read plain (0 + 1) e₃ ≡ (ok (note 1), e₄))
append_restarted_example =
    append_restarted plain pair_log 0 ((note 0 ∷ note 1 ∷ []) ∷ []) pair_limits pair_segment
      pair_log-IsLog pair_log-CanRestart refl refl (note 0 ∷ note 1 ∷ []) newer (1 ∷ 1 ∷ 0 ∷ 8 ∷ [])
      1 (note 1) refl (omega arith) (omega arith, omega arith, tt)
      (record {
        present = refl;
        no_store = unfold find_name in refl;
        no_index = unfold find_name in refl;
        store_sound = refl;
        index_sound = refl;
        some_room = omega arith;
        small = omega arith;
        no_wrap = omega arith;
      })
      (record {
        room = omega arith;
        encodes = refl;
        nonempty = omega arith;
        small = omega arith;
        no_wrap = omega arith;
      })
      refl refl

-- The log of two records, not closed: the second record is out of range when the log is opened again.
crash_hides_example :
    (e₁ : Log.Env) × (e₂ : Log.Env) × (read plain (0 + 1) pair_log ≡ (ok (note 1), e₁))
    × (new_log pair_limits pair_log.disk ≡ (ok tt, e₂))
    × ((read plain (0 + 1) e₂).0 ≡ err (out_of_range (0 + 1)))
crash_hides_example =
    crash_hides plain pair_log 0 (note 0 ∷ note 1 ∷ []) pair_segment pair_limits pair_log-CanCrash
      refl 1 (note 1) refl (omega arith)
