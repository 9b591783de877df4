-- ===== src/Tests/Samples.antt =====
-- Values for the tests: a codec that writes each number as one byte, and a log of one full segment.
use aphros.Base.{
  ℕ, ◌≡◌, refl, subst, Option, some, none, true, false, List, [], ◌∷◌, ◌==◌, if◌then◌else◌,
  replicate,
}
use aphros.Api.{Record, Codec}
use aphros.Disk.{Disk, store_file, index_file}
use aphros.Store
use aphros.Index
use aphros.Segment.{Config, Segment}
use aphros.Log

abbrev pub plain_marshal : Record → Option (List ℕ)
plain_marshal r = some (r.offset ∷ r.term ∷ r.kind ∷ r.value)

abbrev pub plain_unmarshal : List ℕ → Option Record
plain_unmarshal (o ∷ t ∷ y ∷ v) = some (record { value = v; offset = o; term = t; kind = y })
plain_unmarshal _ = none

pub plain_law : (r : Record) (p : List ℕ) → plain_marshal r ≡ some p → plain_unmarshal p ≡ some r
plain_law r p h =
    let same : r.offset ∷ r.term ∷ r.kind ∷ r.value ≡ p = cc in
    subst (λ q. plain_unmarshal q ≡ some r) same refl

abbrev pub plain : Codec
plain = record {
  marshal = plain_marshal;
  unmarshal = plain_unmarshal;
  unmarshal-marshal = plain_law;
}

abbrev pub limits : Config
limits = record { max_store_bytes = 1024; max_index_bytes = 12; initial_offset = 0 }

-- The value of every record in the tests.
abbrev pub note : ℕ → Record
note n = record { value = 7 ∷ []; offset = n; term = 1; kind = 0 }

abbrev pub note_bytes : ℕ → List ℕ
note_bytes n = n ∷ 1 ∷ 0 ∷ 7 ∷ []

-- A file of twelve zeros is the index of one record, at position 0.
abbrev pub framed_note : ℕ → List ℕ
framed_note n = 0 ∷ 0 ∷ 0 ∷ 0 ∷ 0 ∷ 0 ∷ 0 ∷ 4 ∷ note_bytes n

abbrev pub one_note : List ℕ
one_note = framed_note 0

abbrev pub full_disk : Disk
full_disk = record {
  node = λ j.
      if j == 0
      then record { bytes = one_note; faulty = false }
      else if j == 1
      then record { bytes = replicate 12 0; faulty = false }
      else record { bytes = []; faulty = false };
  names = (store_file 0, 0) ∷ (index_file 0, 1) ∷ [];
  fresh = 2;
  present = true;
}

abbrev pub full_store : Store.Store
full_store = record { ino = 0; buf = []; failed = false; closed = false; size = 12 }

abbrev pub full_index : Index.Index
full_index = record { ino = 1; closed = false; mapped = 12; size = 12 }

abbrev pub full_segment : Segment
full_segment = record {
  store = full_store;
  index = full_index;
  base_offset = 0;
  next_offset = 1;
  config = limits;
}

abbrev pub full_log : Log.Env
full_log = record {
  self = record { config = limits; segments = full_segment ∷ []; active = none };
  disk = full_disk;
}

-- The same with room for two records.
abbrev pub wide_limits : Config
wide_limits = record { max_store_bytes = 1024; max_index_bytes = 24; initial_offset = 0 }

abbrev pub open_disk : Disk
open_disk = record {
  node = λ j.
      if j == 0
      then record { bytes = one_note; faulty = false }
      else if j == 1
      then record { bytes = replicate 24 0; faulty = false }
      else record { bytes = []; faulty = false };
  names = (store_file 0, 0) ∷ (index_file 0, 1) ∷ [];
  fresh = 2;
  present = true;
}

abbrev pub open_index : Index.Index
open_index = record { ino = 1; closed = false; mapped = 24; size = 12 }

abbrev pub open_segment : Segment
open_segment = record {
  store = full_store;
  index = open_index;
  base_offset = 0;
  next_offset = 1;
  config = wide_limits;
}

abbrev pub open_log : Log.Env
open_log = record {
  self = record { config = wide_limits; segments = open_segment ∷ []; active = none };
  disk = open_disk;
}

-- The same without a record, as NewLog leaves it in an empty directory.
abbrev pub empty_disk : Disk
empty_disk = record {
  node = λ j.
      if j == 1
      then record { bytes = replicate 24 0; faulty = false }
      else record { bytes = []; faulty = false };
  names = (store_file 0, 0) ∷ (index_file 0, 1) ∷ [];
  fresh = 2;
  present = true;
}

abbrev pub empty_segment : Segment
empty_segment = record {
  store = record { ino = 0; buf = []; failed = false; closed = false; size = 0 };
  index = record { ino = 1; closed = false; mapped = 24; size = 0 };
  base_offset = 0;
  next_offset = 0;
  config = wide_limits;
}

abbrev pub empty_log : Log.Env
empty_log = record {
  self = record { config = wide_limits; segments = empty_segment ∷ []; active = none };
  disk = empty_disk;
}

-- A directory without files.
abbrev pub bare_disk : Disk
bare_disk = record {
  node = λ j. record { bytes = []; faulty = false };
  names = [];
  fresh = 0;
  present = true;
}

-- Two full segments of one record each.
abbrev pub two_disk : Disk
two_disk = record {
  node = λ j.
      if j == 0
      then record { bytes = framed_note 0; faulty = false }
      else if j == 1
      then record { bytes = replicate 12 0; faulty = false }
      else if j == 2
      then record { bytes = framed_note 1; faulty = false }
      else if j == 3
      then record { bytes = replicate 12 0; faulty = false }
      else record { bytes = []; faulty = false };
  names = (store_file 0, 0) ∷ (index_file 0, 1) ∷ (store_file 1, 2) ∷ (index_file 1, 3) ∷ [];
  fresh = 4;
  present = true;
}

abbrev pub second_segment : Segment
second_segment = record {
  store = record { ino = 2; buf = []; failed = false; closed = false; size = 12 };
  index = record { ino = 3; closed = false; mapped = 12; size = 12 };
  base_offset = 1;
  next_offset = 2;
  config = limits;
}

abbrev pub two_log : Log.Env
two_log = record {
  self = record { config = limits; segments = full_segment ∷ second_segment ∷ []; active = none };
  disk = two_disk;
}
