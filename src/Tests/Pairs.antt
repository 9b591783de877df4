-- ===== src/Tests/Pairs.antt =====
-- A log of one segment with two records, and room in its index for a third.
use aphros.Base.{
  ℕ, zero, suc, ◌≡◌, refl, subst, true, false, none, some, List, [], ◌∷◌, ◌++◌, arith, get_elem?,
  if◌then◌else◌, ◌==◌, replicate,
}
use aphros.Base.Bytes.{put_be}
use aphros.Base.Slices.{slice}
use aphros.Api.{Record}
use aphros.Disk.{Disk, store_file, index_file}
use aphros.Store.Records.{HoldsAt}
use aphros.Index.Entries.{HasEntry}
use aphros.Segment.{Segment, Config}
use aphros.Segment.Contents.{Holds, Stored}
use aphros.Log
use aphros.Log.Contents.{IsLog, at_disk}
use aphros.Log.Restarting.Durable.{CanRestart}
use aphros.Log.Restarting.Crashing.{CanCrash}
use aphros.Tests.Samples.{plain, note, note_bytes, framed_note}

abbrev pub pair_limits : Config
pair_limits = record { max_store_bytes = 1024; max_index_bytes = 36; initial_offset = 0 }

abbrev pair_bytes : List ℕ
pair_bytes = framed_note 0 ++ framed_note 1

-- The entries of the two records, at the positions 0 and 12, and the zeros behind them.
abbrev two_entries : List ℕ
two_entries = replicate 12 0 ++ (0 ∷ 0 ∷ 0 ∷ 1 ∷ 0 ∷ 0 ∷ 0 ∷ 0 ∷ 0 ∷ 0 ∷ 0 ∷ 12 ∷ [])

abbrev pair_entries : List ℕ
pair_entries = two_entries ++ replicate 12 0

abbrev pair_disk : Disk
pair_disk = record {
  node = λ j.
      if j == 0
      then record { bytes = pair_bytes; faulty = false }
      else if j == 1
      then record { bytes = pair_entries; faulty = false }
      else record { bytes = []; faulty = false };
  names = (store_file 0, 0) ∷ (index_file 0, 1) ∷ [];
  fresh = 2;
  present = true;
}

abbrev pub pair_segment : Segment
pair_segment = record {
  store = record { ino = 0; buf = []; failed = false; closed = false; size = 24 };
  index = record { ino = 1; closed = false; mapped = 36; size = 24 };
  base_offset = 0;
  next_offset = 2;
  config = pair_limits;
}

abbrev pub pair_log : Log.Env
pair_log = record {
  self = record { config = pair_limits; segments = pair_segment ∷ []; active = none };
  disk = pair_disk;
}

first-HoldsAt : HoldsAt pair_bytes 0 (note_bytes 0)
unfolding slice put_be
first-HoldsAt = record { prefix = refl; body = refl; within = omega arith }

second-HoldsAt : HoldsAt pair_bytes 12 (note_bytes 1)
unfolding slice put_be
second-HoldsAt = record { prefix = refl; body = refl; within = omega arith }

first-HasEntry : HasEntry pair_entries 0 0 0
unfolding slice put_be
first-HasEntry = record { offset_part = refl; position_part = refl }

second-HasEntry : HasEntry pair_entries 1 1 12
unfolding slice put_be
second-HasEntry = record { offset_part = refl; position_part = refl }

pair-Stored :
    (i : ℕ) (r : Record)
    → get_elem? (note 0 ∷ note 1 ∷ []) i ≡ some r
    → Stored plain pair_bytes pair_entries i r
pair-Stored zero r found =
    let same : note 0 ≡ r = cc in
    subst (λ q. Stored plain pair_bytes pair_entries 0 q) same
      (record {
        position = 0;
        encoded = note_bytes 0;
        entry = first-HasEntry;
        at = first-HoldsAt;
        decoded = refl;
        nonempty = omega arith;
        small = omega arith;
      })
pair-Stored (suc zero) r found =
    let same : note 1 ≡ r = cc in
    subst (λ q. Stored plain pair_bytes pair_entries 1 q) same
      (record {
        position = 12;
        encoded = note_bytes 1;
        entry = second-HasEntry;
        at = second-HoldsAt;
        decoded = refl;
        nonempty = omega arith;
        small = omega arith;
      })
pair-Stored (suc (suc i)) r found = cc

pair-Holds : Holds plain (at_disk pair_segment pair_disk) (note 0 ∷ note 1 ∷ [])
pair-Holds = record {
  store_ok = record {
    healthy = record { not_failed = refl; is_open = refl; sound = refl };
    sized = refl;
  };
  bounded = omega arith;
  index_ok = record {
    is_open = refl;
    sized = refl;
    mapped_all = refl;
    within = omega arith;
    small = omega arith;
  };
  apart = λ e. absurd (omega arith);
  next = refl;
  no_wrap = omega arith;
  stored = pair-Stored;
}

pub pair_log-IsLog : IsLog plain pair_log 0 ((note 0 ∷ note 1 ∷ []) ∷ [])
pair_log-IsLog = record {
  holds = (pair-Holds, tt);
  chained = (refl, tt);
  apart = (tt, tt, tt);
  attached = refl;
}

pub pair_log-CanRestart : CanRestart pair_log ((note 0 ∷ note 1 ∷ []) ∷ [])
pair_log-CanRestart = record {
  present = refl;
  named = refl;
  sound = (refl, tt);
  fit = (omega arith, omega arith, tt);
  small = omega arith;
}

pub pair_log-CanCrash : CanCrash plain pair_log 0 (note 0 ∷ note 1 ∷ []) pair_segment
pair_log-CanCrash = record {
  is_log = pair_log-IsLog;
  only = refl;
  present = refl;
  named = refl;
  index_sound = refl;
  mapped_is = refl;
  entries = two_entries;
  zeros = 12;
  padded = refl;
  entries_are = refl;
  room = omega arith;
}
