-- ===== src/Index.antt =====
-- internal/log/index.go: the memory-mapped table from offsets, relative to a segment's base, to
-- positions in its store.
pub mod Entries
pub mod Reopen
pub mod Padding
use aphros.Base.{
  ℕ, ◌+◌, ◌-◌, ◌*◌, ◌/◌, ◌^◌, Bool, true, false, ◌||◌, List, ◌++◌, ◌==◌, ltb, leb, if◌then◌else◌,
  length, u32, u64, take,
}
use aphros.Base.Bytes.{put_be, get_be}
use aphros.Base.Slices.{slice, splice}
use aphros.Result.{
  eof, io_failure, panic, Result, ok, err, Exec, pure, raise, gets, modify, ◌>>=◌, ◌>>◌,
}
use aphros.Disk.{Disk, File, set_bytes, resize}

-- `mapped` is `len(mmap)`. The mapping is shared: it is read and written in the file's bytes.
pub record Index : Type 0 where
  pub ino : ℕ
  pub closed : Bool
  pub mapped : ℕ
  pub size : ℕ

pub record Env : Type 0 where
  pub self : Index
  pub disk : Disk

abbrev pub file_of : Env → File
file_of e = e.disk.node e.self.ino

abbrev pub offset_width : ℕ
offset_width = 4

abbrev pub position_width : ℕ
position_width = 8

abbrev pub entry_width : ℕ
entry_width = offset_width + position_width

-- newIndex, on a file that has been opened: its size is taken before it is grown to the maximum
-- and mapped. As an int64 a maximum of 2^63 or more is negative, and Truncate refuses it; mmap(2) refuses
-- a file of no bytes.
unfoldable pub new_index : ℕ → ℕ → Disk → Result Index × Disk
new_index ino max_index_bytes d =
    if (d.node ino).faulty
    then (err io_failure, d)
    else if leb (2 ^ 63) max_index_bytes
    then (err io_failure, d)
    else if max_index_bytes == 0
    then (err io_failure, set_bytes d ino (resize (d.node ino).bytes max_index_bytes))
    else (
      ok (record {
        ino = ino;
        closed = false;
        mapped = max_index_bytes;
        size = length (d.node ino).bytes;
      }),
      set_bytes d ino (resize (d.node ino).bytes max_index_bytes),
    )

unfoldable pub close : Exec Env (Unit {0})
close e = if e.self.closed || (file_of e).faulty then (err io_failure, e) else (
  ok tt,
  record {
    self = record e.self { closed = true };
    disk = set_bytes e.disk e.self.ino (resize (file_of e).bytes e.self.size);
  },
)

-- The bit pattern of the int64 -1.
abbrev pub minus_one : ℕ
minus_one = 2 ^ 64 - 1

-- The entry that Read looks at: the last one for -1.
wanted : ℕ → Index → ℕ
wanted in_ i = if in_ == minus_one then u32 (i.size / entry_width + 2 ^ 64 - 1) else u32 in_

-- The entry at the byte `at` of the mapping; a slice past its end panics.
read_entry : ℕ → Exec Env (ℕ × ℕ)
read_entry at e =
    if ltb e.self.size (at + entry_width)
    then (err eof, e)
    else if ltb e.self.mapped (at + entry_width)
    then (err panic, e)
    else (
      ok (
        get_be (slice (file_of e).bytes at offset_width),
        get_be (slice (file_of e).bytes (at + offset_width) position_width),
      ),
      e,
    )

-- The argument is the bit pattern of an int64.
pub read : ℕ → Exec Env (ℕ × ℕ)
read in_ e =
    if e.self.size == 0 then (err eof, e) else read_entry (wanted in_ e.self * entry_width) e

unfoldable pub is_maxed : Index → Bool
is_maxed i = ltb i.mapped (u64 (i.size + entry_width))

pub write : ℕ → ℕ → Exec Env (Unit {0})
write off pos e = if is_maxed e.self then (err eof, e) else (
  ok tt,
  record {
    self = record e.self { size = u64 (e.self.size + entry_width) };
    disk = set_bytes e.disk e.self.ino (
        splice (file_of e).bytes e.self.size
          (put_be offset_width off ++ put_be position_width pos));
  },
)
