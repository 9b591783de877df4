-- ===== src/Disk.antt =====
-- The operating system's files as the log uses them: a table of files, and one directory of names.
-- A call on a faulty or closed file fails and has no effect; which files are faulty is part of the
-- state, so the theorems hold whatever the environment makes faulty.
pub mod Frame
pub mod Creating
use aphros.Base.{
  ℕ, ◌+◌, ◌-◌, Bool, true, false, Option, none, some, List, [], ◌∷◌, ◌++◌, ◌==◌, if◌then◌else◌,
  take, length, replicate,
}
use mathlib.Core.List.{map}
use aphros.Result.{Exec, ok, err, io_failure, not_exist}

pub record File : Type 0 where
  pub bytes : List ℕ
  pub faulty : Bool

-- `%d.store` and `%d.index`; `foreign` is any other file, with the number that `ParseUint` makes of
-- its name, 0 where it is not one.
pub data FileName : Type 0 where
  store_file : ℕ → FileName
  index_file : ℕ → FileName
  foreign : ℕ → FileName

abbrev pub same_name : FileName → FileName → Bool
same_name (store_file a) (store_file b) = a == b
same_name (index_file a) (index_file b) = a == b
same_name (foreign a) (foreign b) = a == b
same_name _ _ = false

pub record Disk : Type 0 where
  pub node : ℕ → File
  pub names : List (FileName × ℕ)
  pub fresh : ℕ
  pub present : Bool

abbrev pub update : (ℕ → File) → ℕ → File → ℕ → File
update f i v j = if i == j then v else f j

abbrev pub set_bytes : Disk → ℕ → List ℕ → Disk
set_bytes d i bs = record d {
  node = update d.node i (record { bytes = bs; faulty = (d.node i).faulty });
}

-- `os.Truncate`: cut, or filled with zeros.
abbrev pub resize : List ℕ → ℕ → List ℕ
resize bs n = take n bs ++ replicate (n - length bs) 0

unfoldable pub find_name : List (FileName × ℕ) → FileName → Option ℕ
find_name [] n = none
find_name ((m, i) ∷ rest) n = if same_name m n then some i else find_name rest n

unfoldable pub drop_name : List (FileName × ℕ) → FileName → List (FileName × ℕ)
drop_name [] n = []
drop_name ((m, i) ∷ rest) n = if same_name m n then rest else (m, i) ∷ drop_name rest n

-- `os.OpenFile` with O_CREATE.
pub open_file : FileName → Exec Disk ℕ
open_file n d =
    if d.present
    then (elim (find_name d.names n) [
      | none ↦ (
        ok d.fresh,
        record (set_bytes d d.fresh []) {
          names = d.names ++ ((n, d.fresh) ∷ []);
          fresh = d.fresh + 1;
        },
      )
      | some i ↦ if (d.node i).faulty then (err io_failure, d) else (ok i, d)
    ])
    else (err not_exist, d)

-- `os.Remove`: the name goes, and the file stays for those who have it open.
unfoldable pub remove_file : FileName → Exec Disk (Unit {0})
remove_file n d = elim (find_name d.names n) [
  | none ↦ (err not_exist, d)
  | some i ↦ (ok tt, record d { names = drop_name d.names n })
]

-- `os.RemoveAll` of the directory; one that is not there is no error.
unfoldable pub remove_all : Exec Disk (Unit {0})
remove_all d = (ok tt, record d { names = []; present = false })

-- `os.ReadDir`.
unfoldable pub read_dir : Exec Disk (List FileName)
read_dir d = if d.present then (ok (map (λ e. e.0) d.names), d) else (err not_exist, d)
