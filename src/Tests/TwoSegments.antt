-- ===== src/Tests/TwoSegments.antt =====
-- The log of two segments meets the invariants.
use aphros.Base.{refl, [], ◌∷◌, arith}
use aphros.Segment.Contents.{Holds, Holds-kept}
use aphros.Segment.Removing.{CanRemove}
use aphros.Disk.{find_name}
use aphros.Log.Contents.{IsLog, at_disk}
use aphros.Tests.Samples.{plain, note, full_disk, full_segment, second_segment, two_disk, two_log}
use aphros.Tests.Facts.{framed_note-Stored, zeros_entry, full-Holds}

second-Holds : Holds plain (at_disk second_segment two_disk) (note 1 ∷ [])
second-Holds = record {
  store_ok = record {
    healthy = record { not_failed = refl; is_open = refl; sound = refl };
    sized = refl;
  };
  bounded = omega arith;
  index_ok = record {
    is_open = refl;
    sized = refl;
    mapped_all = refl;
    within = omega arith;
    small = omega arith;
  };
  apart = λ e. absurd (omega arith);
  next = refl;
  no_wrap = omega arith;
  stored = λ i r found. framed_note-Stored 1 i r (full_disk.node 1).bytes zeros_entry found;
}

pub two_log-IsLog : IsLog plain two_log 0 ((note 0 ∷ []) ∷ (note 1 ∷ []) ∷ [])
two_log-IsLog = record {
  holds = (
    Holds-kept plain full_segment (note 0 ∷ []) full_disk two_disk refl refl full-Holds,
    (second-Holds, tt),
  );
  chained = (refl, (refl, tt));
  apart = (
    (λ e. absurd (omega arith), λ e. absurd (omega arith), tt),
    (λ e. absurd (omega arith), λ e. absurd (omega arith), tt),
    (tt, tt, tt),
  );
  attached = refl;
}

pub full-CanRemove : CanRemove two_disk 0 1
unfolding find_name
full-CanRemove = record {
  store_at = 0;
  index_at = 1;
  store_named = refl;
  index_named = refl;
  index_sound = refl;
}
