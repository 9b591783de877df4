-- ===== src/Tests/Stores.antt =====
-- Stores at concrete inputs.
use aphros.Base.{◌≡◌, refl, ap, [], ◌∷◌, ◌++◌, arith, true, false}
use aphros.Base.Bytes.{put_be}
use aphros.Base.Slices.{slice}
use aphros.Result.{io_failure, ok}
use aphros.Disk.Frame.{Touches}
use aphros.Store
use aphros.Store.{append, read, len_width}
use aphros.Store.Buffer.{content}
use aphros.Store.Records.{IsStore, HoldsAt, framed, append-IsStore}
use aphros.Store.Faults.{append_error, failed_sticks}
use aphros.Tests.Samples.{note_bytes, full_disk, full_store}
use aphros.Tests.Facts.{store_env, store_env-IsStore}

append-IsStore_example :
    (e' : Store.Env) × (append (note_bytes 1) store_env ≡ (ok (12, 12), e'))
    × (content e' ≡ content store_env ++ framed (note_bytes 1))
    × IsStore e'
    × Touches 0 full_disk e'.disk
    × (e'.self.ino ≡ 0)
append-IsStore_example = append-IsStore (note_bytes 1) store_env store_env-IsStore (omega arith)

-- A store whose buffer has failed.
abbrev broken : Store.Env
broken = record { self = record full_store { failed = true }; disk = full_disk }

append_error_example :
    (io_failure ≡ io_failure)
    × ((append (note_bytes 1) broken).1.self.size ≡ 12)
    × ((append (note_bytes 1) broken).1.self.failed ≡ true)
append_error_example =
    append_error (note_bytes 1) broken io_failure
      (ap (λ r. r.0) (failed_sticks (note_bytes 1) 0 broken refl).0)

-- A store that holds one record of no bytes.
abbrev eight_zeros : Store.Env
eight_zeros = record {
  self = record {
    ino = 2;
    buf = 0 ∷ 0 ∷ 0 ∷ 0 ∷ 0 ∷ 0 ∷ 0 ∷ 0 ∷ [];
    failed = false;
    closed = false;
    size = 8;
  };
  disk = full_disk;
}

eight_zeros-HoldsAt : HoldsAt (content eight_zeros) 0 []
unfolding slice put_be
eight_zeros-HoldsAt = record { prefix = refl; body = refl; within = omega arith }
