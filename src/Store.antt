-- ===== src/Store.antt =====
-- internal/log/store.go: the file of length-prefixed records, behind a bufio.Writer.
pub mod Buffer
pub mod Records
pub mod Faults
pub mod Reopen
pub mod Ranges
use aphros.Base.{
  ℕ, zero, ◌+◌, ◌-◌, ◌^◌, ◌<◌, ◌≡◌, Bool, true, false, ◌||◌, List, [], ◌∷◌, ◌++◌, ◌==◌, ltb, leb,
  if◌then◌else◌, length, take, drop, u64,
}
use aphros.Base.Bytes.{put_be, get_be}
use aphros.Base.Slices.{slice}
use aphros.Result.{
  Error, eof, io_failure, invalid_size, panic, Result, ok, err, Exec, pure, raise, gets, modify,
  ◌>>=◌, ◌>>◌,
}
use aphros.Disk.{Disk, File, set_bytes}

-- `failed` is the error that a bufio.Writer keeps once a write has failed.
pub record Store : Type 0 where
  pub ino : ℕ
  pub buf : List ℕ
  pub failed : Bool
  pub closed : Bool
  pub size : ℕ

-- A store and the disk that it writes to.
pub record Env : Type 0 where
  pub self : Store
  pub disk : Disk

abbrev pub file_of : Env → File
file_of e = e.disk.node e.self.ino

abbrev pub len_width : ℕ
len_width = 8

-- bufio's default buffer size.
abbrev pub buffer_size : ℕ
buffer_size = 4096

-- The most bytes that `make` gives before it panics.
abbrev pub max_alloc : ℕ
max_alloc = 2 ^ 48

abbrev set_buf : List ℕ → Env → Env
set_buf b e = record e { self = record e.self { buf = b } }

-- A `Write` of the file below the buffer; it was opened with O_APPEND.
pub write_through : List ℕ → Exec Env (Unit {0})
write_through p e =
    if e.self.closed || (file_of e).faulty
    then (err io_failure, record e { self = record e.self { failed = true } })
    else (ok tt, record e { disk = set_bytes e.disk e.self.ino ((file_of e).bytes ++ p) })

unfoldable pub flush_pending : List ℕ → Exec Env (Unit {0})
flush_pending [] = pure tt
flush_pending (b ∷ bs) = do write_through (b ∷ bs); modify (set_buf [])

unfoldable pub flush : Exec Env (Unit {0})
flush e = if e.self.failed then (err io_failure, e) else flush_pending e.self.buf e

-- What is left once the buffer is empty goes to it, or past it where it does not fit.
write_rest : List ℕ → Exec Env (Unit {0})
write_rest q e = if leb (length q) buffer_size then (ok tt, set_buf q e) else write_through q e

-- A write that does not fit: past an empty buffer, or after the buffer is filled and flushed.
write_large : List ℕ → List ℕ → Exec Env (Unit {0})
write_large p [] = write_through p
write_large p (b ∷ bs) = do
  let room = buffer_size - length (b ∷ bs)
  modify (set_buf ((b ∷ bs) ++ take room p))
  flush
  write_rest (drop room p)

-- (b *bufio.Writer) Write.
pub buf_write : List ℕ → Exec Env (Unit {0})
buf_write p e =
    if e.self.failed
    then (err io_failure, e)
    else if leb (length p) (buffer_size - length e.self.buf)
    then (ok tt, set_buf (e.self.buf ++ p) e)
    else write_large p e.self.buf e

-- (f *os.File) ReadAt of `n` bytes: an offset is an int64, and a short read is an error.
pub file_read_at : ℕ → ℕ → Exec Env (List ℕ)
file_read_at position n e =
    if leb (2 ^ 63) position || (e.self.closed || (file_of e).faulty)
    then (err io_failure, e)
    else if ltb (length (file_of e).bytes) (position + n)
    then (err eof, e)
    else (ok (slice (file_of e).bytes position n), e)

pub append : List ℕ → Exec Env (ℕ × ℕ)
append p = do
  position ← gets (λ e. e.self.size)
  buf_write (put_be len_width (length p))
  buf_write p
  modify
      (λ e. record e { self = record e.self { size = u64 (e.self.size + (length p + len_width)) } })
  pure (length p + len_width, position)

-- `make([]byte, n)` panics where `n` is more than the heap can hold.
abbrev allocate : ℕ → Exec Env (Unit {0})
allocate n = if ltb max_alloc n then raise panic else pure tt

-- Read, once the length is known.
read_body : ℕ → ℕ → Exec Env (List ℕ)
read_body position record_size =
    if record_size == 0
    then raise invalid_size
    else do allocate record_size; file_read_at (u64 (position + len_width)) record_size

pub read : ℕ → Exec Env (List ℕ)
read position = do flush; size ← file_read_at position len_width; read_body position (get_be size)

-- ReadAt: the bytes from `off` on, at most `n`; fewer than `n` come with io.EOF, here `true`.
pub read_at : ℕ → ℕ → Exec Env (List ℕ × Bool)
read_at n off = do
  flush
  shut ← gets (λ e. e.self.closed || (file_of e).faulty)
  if leb (2 ^ 63) off || shut
      then raise io_failure
      else gets (λ e. (slice (file_of e).bytes off n, ltb (length (file_of e).bytes) (off + n)))

unfoldable pub close : Exec Env (Unit {0})
close = do
  flush
  shut ← gets (λ e. e.self.closed || (file_of e).faulty)
  if shut
      then raise io_failure
      else modify (λ e. record e { self = record e.self { closed = true } })

-- newStore, on a file that has been opened.
unfoldable pub new_store : ℕ → Disk → Result Store × Disk
new_store ino d = if (d.node ino).faulty then (err io_failure, d) else (
  ok (record {
    ino = ino;
    buf = [];
    failed = false;
    closed = false;
    size = length (d.node ino).bytes;
  }),
  d,
)
