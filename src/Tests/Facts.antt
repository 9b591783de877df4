-- ===== src/Tests/Facts.antt =====
-- The states of the samples meet the invariants.
use aphros.Base.{
  ℕ, zero, suc, ◌+◌, ◌^◌, ◌<◌, ◌≡◌, refl, subst, some, List, [], ◌∷◌, arith, get_elem?,
}
use aphros.Base.Bytes.{put_be}
use aphros.Base.Slices.{slice}
use aphros.Api.{Record}
use aphros.Store
use aphros.Store.Records.{IsStore, HoldsAt}
use aphros.Index.Entries.{HasEntry}
use aphros.Segment.Contents.{Holds, Stored}
use aphros.Segment.Appending.{Fits}
use aphros.Segment.Creating.{CanCreate}
use aphros.Disk.{find_name}
use aphros.Segment.{Config}
use aphros.Log.Representing.{Represents}
use aphros.Log.Contents.{IsLog, at_disk}
use aphros.Tests.Samples.{
  plain, limits, note, note_bytes, one_note, full_disk, full_store, full_segment, full_log,
  open_disk, open_segment, open_log, empty_disk, empty_segment, empty_log, bare_disk, framed_note,
}

abbrev pub store_env : Store.Env
store_env = record { self = full_store; disk = full_disk }

pub store_env-IsStore : IsStore store_env
store_env-IsStore = record {
  healthy = record { not_failed = refl; is_open = refl; sound = refl };
  sized = refl;
}

framed_note-HoldsAt : (n : ℕ) → HoldsAt (framed_note n) 0 (note_bytes n)
unfolding slice put_be
framed_note-HoldsAt n = record { prefix = refl; body = refl; within = omega arith }

pub one_note-HoldsAt : HoldsAt one_note 0 (note_bytes 0)
one_note-HoldsAt = framed_note-HoldsAt 0

pub framed_note-Stored :
    (n i : ℕ) (r : Record) (entries : List ℕ)
    → HasEntry entries 0 0 0
    → get_elem? (note n ∷ []) i ≡ some r
    → Stored plain (framed_note n) entries i r
framed_note-Stored n zero r entries entry found =
    let same : note n ≡ r = cc in
    subst (λ q. Stored plain (framed_note n) entries 0 q) same
      (record {
        position = 0;
        encoded = note_bytes n;
        entry = entry;
        at = framed_note-HoldsAt n;
        decoded = refl;
        nonempty = omega arith;
        small = omega arith;
      })
framed_note-Stored n (suc i) r entries entry found = cc

one_note-Stored :
    (i : ℕ) (r : Record) (entries : List ℕ)
    → HasEntry entries 0 0 0
    → get_elem? (note 0 ∷ []) i ≡ some r
    → Stored plain one_note entries i r
one_note-Stored = framed_note-Stored 0

pub zeros_entry : HasEntry (full_disk.node 1).bytes 0 0 0
unfolding slice put_be
zeros_entry = record { offset_part = refl; position_part = refl }

pub zeros_entry' : HasEntry (open_disk.node 1).bytes 0 0 0
unfolding slice put_be
zeros_entry' = record { offset_part = refl; position_part = refl }

pub full-Holds : Holds plain (at_disk full_segment full_disk) (note 0 ∷ [])
full-Holds = record {
  store_ok = store_env-IsStore;
  bounded = omega arith;
  index_ok = record {
    is_open = refl;
    sized = refl;
    mapped_all = refl;
    within = omega arith;
    small = omega arith;
  };
  apart = λ e. absurd (omega arith);
  next = refl;
  no_wrap = omega arith;
  stored = λ i r found. one_note-Stored i r (full_disk.node 1).bytes zeros_entry found;
}

pub open-Holds : Holds plain (at_disk open_segment open_disk) (note 0 ∷ [])
open-Holds = record {
  store_ok = record {
    healthy = record { not_failed = refl; is_open = refl; sound = refl };
    sized = refl;
  };
  bounded = omega arith;
  index_ok = record {
    is_open = refl;
    sized = refl;
    mapped_all = refl;
    within = omega arith;
    small = omega arith;
  };
  apart = λ e. absurd (omega arith);
  next = refl;
  no_wrap = omega arith;
  stored = λ i r found. one_note-Stored i r (open_disk.node 1).bytes zeros_entry' found;
}

pub full_log-IsLog : IsLog plain full_log 0 ((note 0 ∷ []) ∷ [])
full_log-IsLog = record {
  holds = (full-Holds, tt);
  chained = (refl, tt);
  apart = (tt, tt, tt);
  attached = refl;
}

pub open_log-IsLog : IsLog plain open_log 0 ((note 0 ∷ []) ∷ [])
open_log-IsLog = record {
  holds = (open-Holds, tt);
  chained = (refl, tt);
  apart = (tt, tt, tt);
  attached = refl;
}

-- One more record fits the open segment.
pub open-Fits : Fits plain (at_disk open_segment open_disk) (note 9) (note_bytes 1)
open-Fits = record {
  encodes = refl;
  nonempty = omega arith;
  small = omega arith;
  store_room = omega arith;
  no_wrap = omega arith;
}

pub full-CanCreate : CanCreate 1 limits full_disk
unfolding find_name
full-CanCreate = record {
  present = refl;
  no_store = refl;
  no_index = refl;
  store_sound = refl;
  index_sound = refl;
  some_room = omega arith;
  small = omega arith;
  no_wrap = omega arith;
}

pub empty-Holds : Holds plain (at_disk empty_segment empty_disk) []
empty-Holds = record {
  store_ok = record {
    healthy = record { not_failed = refl; is_open = refl; sound = refl };
    sized = refl;
  };
  bounded = omega arith;
  index_ok = record {
    is_open = refl;
    sized = refl;
    mapped_all = refl;
    within = omega arith;
    small = omega arith;
  };
  apart = λ e. absurd (omega arith);
  next = refl;
  no_wrap = omega arith;
  stored = λ i r found. cc;
}

pub empty_log-IsLog : IsLog plain empty_log 0 ([] ∷ [])
empty_log-IsLog = record {
  holds = (empty-Holds, tt);
  chained = (refl, tt);
  apart = (tt, tt, tt);
  attached = refl;
}

pub empty_log-Represents : Represents plain empty_log 0 []
empty_log-Represents = record {
  split = [] ∷ [];
  log_ok = empty_log-IsLog;
  below = (omega arith, omega arith, tt);
  records_are = refl;
}

pub empty-Fits : (n : ℕ) → Fits plain (at_disk empty_segment empty_disk) (note n) (note_bytes 0)
empty-Fits n = record {
  encodes = refl;
  nonempty = omega arith;
  small = omega arith;
  store_room = omega arith;
  no_wrap = omega arith;
}

-- A segment can be created in a directory without files.
pub bare-CanCreate :
    (base : ℕ) (c : Config)
    → 0 < c.max_index_bytes
    → c.max_index_bytes < 2 ^ 32
    → base + 1 < 2 ^ 64
    → CanCreate base c bare_disk
unfolding find_name
bare-CanCreate base c pos small wraps = record {
  present = refl;
  no_store = refl;
  no_index = refl;
  store_sound = refl;
  index_sound = refl;
  some_room = pos;
  small = small;
  no_wrap = omega arith;
}
