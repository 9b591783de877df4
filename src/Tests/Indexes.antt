-- ===== src/Tests/Indexes.antt =====
-- Indexes at concrete inputs.
use aphros.Base.{◌≡◌, refl, arith, true}
use aphros.Result.{ok, err, eof}
use aphros.Disk.{Disk}
use aphros.Index
use aphros.Index.{Index, read, write, minus_one, new_index, is_maxed, close}
use aphros.Index.Entries.{write_full, read-HasEntry, read_last, read_beyond}
use aphros.Index.Reopen.{new_index_mapped}
use aphros.Tests.Samples.{full_disk, full_index, open_disk, open_index}
use aphros.Tests.Facts.{full-Holds, open-Holds, zeros_entry}

abbrev open_env : Index.Env
open_env = record { self = open_index; disk = open_disk }

abbrev full_env : Index.Env
full_env = record { self = full_index; disk = full_disk }

write_full_example : write 1 12 full_env ≡ (err eof, full_env)
write_full_example = write_full 1 12 1 full_env full-Holds.index_ok (omega arith)

read-HasEntry_example : read 0 full_env ≡ (ok (0, 0), full_env)
read-HasEntry_example =
    read-HasEntry 0 0 0 1 full_env full-Holds.index_ok (omega arith) zeros_entry (omega arith)
      (omega arith)

read_last_example : read minus_one full_env ≡ (ok (0, 0), full_env)
read_last_example =
    read_last 0 0 0 full_env full-Holds.index_ok zeros_entry (omega arith) (omega arith)

read_beyond_example : read 1 full_env ≡ (err eof, full_env)
read_beyond_example = read_beyond 1 1 full_env full-Holds.index_ok (omega arith) (omega arith)

new_index_mapped_example :
    (i : Index) × (d : Disk) × (new_index 1 24 open_disk ≡ (ok i, d))
    × (i.size ≡ 24)
    × (is_maxed i ≡ true)
new_index_mapped_example = new_index_mapped open_env 1 open-Holds.index_ok refl (omega arith)
