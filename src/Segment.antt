-- ===== src/Segment.antt =====
-- internal/log/segment.go: a store and the index into it, for the offsets from a base on.
-- internal/log/config.go: the limits of a segment.
pub mod Contents
pub mod Appending
pub mod Closing
pub mod Reopening
pub mod Removing
pub mod Creating
pub mod Multiple
use aphros.Base.{
  ℕ, ◌+◌, ◌-◌, ◌*◌, ◌/◌, ◌^◌, Bool, ◌||◌, Option, none, some, List, ◌==◌, ltb, leb, if◌then◌else◌,
  u32, u64,
}
use aphros.Result.{
  Error, bad_record, panic, Result, ok, err, Exec, pure, raise, lift, gets, modify, ◌>>=◌, ◌>>◌,
}
use aphros.Api.{Record, Codec}
use aphros.Disk.{Disk, open_file, remove_file, store_file, index_file}
use aphros.Store
use aphros.Store.{Store}
use aphros.Index
use aphros.Index.{Index}

-- The part of Config that the log uses.
pub record Config : Type 0 where
  pub max_store_bytes : ℕ
  pub max_index_bytes : ℕ
  pub initial_offset : ℕ

pub record Segment : Type 0 where
  pub store : Store
  pub index : Index
  pub base_offset : ℕ
  pub next_offset : ℕ
  pub config : Config

pub record Env : Type 0 where
  pub self : Segment
  pub disk : Disk

abbrev pub store_env : Env → Store.Env
store_env e = record { self = e.self.store; disk = e.disk }

abbrev pub index_env : Env → Index.Env
index_env e = record { self = e.self.index; disk = e.disk }

abbrev pub with_store : Env → Store.Env → Env
with_store e t = record { self = record e.self { store = t.self }; disk = t.disk }

abbrev pub with_index : Env → Index.Env → Env
with_index e t = record { self = record e.self { index = t.self }; disk = t.disk }

-- A method of the segment's store, and of its index.
abbrev pub on_store : {A : Type 0} → Exec Store.Env A → Exec Env A
on_store m e = let (r, t) = m (store_env e) in (r, with_store e t)

abbrev pub on_index : {A : Type 0} → Exec Index.Env A → Exec Env A
on_index m e = let (r, t) = m (index_env e) in (r, with_index e t)

abbrev pub on_disk : {A : Type 0} → Exec Disk A → Exec Env A
on_disk m e = let (r, d) = m e.disk in (r, record { self = e.self; disk = d })

-- The next offset of a segment that is opened, from what Read(-1) of its index returned.
abbrev pub next_after : ℕ → Result (ℕ × ℕ) → Result ℕ
next_after base (ok (off, _)) = ok (u64 (base + off + 1))
next_after base (err panic) = err panic
next_after base (err _) = ok base

-- newSegment.
pub new_segment : ℕ → Config → Exec Disk Segment
new_segment base c = do
  store_ino ← open_file (store_file base)
  store ← Store.new_store store_ino
  index_ino ← open_file (index_file base)
  index ← Index.new_index index_ino c.max_index_bytes
  last ← gets (λ d. (Index.read Index.minus_one (record { self = index; disk = d })).0)
  next ← lift (next_after base last)
  pure (record { store = store; index = index; base_offset = base; next_offset = next; config = c })

-- An error of protobuf.
abbrev pub or_bad_record : {A : Type 0} → Option A → Result A
or_bad_record none = err bad_record
or_bad_record (some a) = ok a

-- Append, once the record is in the store at `pos`: its entry in the index, and the new offset.
index_at : ℕ → ℕ → ℕ → Exec Env ℕ
index_at curr pos off = do
  on_index (Index.write off pos)
  modify (λ e. record e { self = record e.self { next_offset = u64 (e.self.next_offset + 1) } })
  pure curr

index_record : ℕ → ℕ → Exec Env ℕ
index_record curr pos = do
  off ← gets (λ e. u32 (u64 (e.self.next_offset + 2 ^ 64 - e.self.base_offset)))
  index_at curr pos off

-- Append, once the record is marshalled.
store_record : ℕ → List ℕ → Exec Env ℕ
store_record curr p = do (_, pos) ← on_store (Store.append p); index_record curr pos

pub append : Codec → Record → Exec Env ℕ
append k r = do
  curr ← gets (λ e. e.self.next_offset)
  p ← lift (or_bad_record (k.marshal (record r { offset = curr })))
  store_record curr p

read_stored : Codec → ℕ → Exec Env Record
read_stored k pos = do p ← on_store (Store.read pos); lift (or_bad_record (k.unmarshal p))

pub read : Codec → ℕ → Exec Env Record
read k off = do
  relative ← gets (λ e. u64 (off + 2 ^ 64 - e.self.base_offset))
  (_, pos) ← on_index (Index.read relative)
  read_stored k pos

unfoldable pub is_maxed : Segment → Bool
is_maxed s =
    leb s.config.max_store_bytes s.store.size
    || (leb s.config.max_index_bytes s.index.size || Index.is_maxed s.index)

unfoldable pub close : Exec Env (Unit {0})
close = do on_index Index.close; on_store Store.close

unfoldable pub remove : Exec Env (Unit {0})
remove = do
  close
  base ← gets (λ e. e.self.base_offset)
  on_disk (remove_file (index_file base))
  on_disk (remove_file (store_file base))

-- nearestMultiple, in uint64; a division by zero panics.
pub nearest_multiple : ℕ → ℕ → Result ℕ
nearest_multiple j k =
    if k == 0
    then err panic
    else if ltb 0 j
    then ok (u64 (j / k * k))
    else ok (u64 (u64 (j + 2 ^ 64 - k + 1) / k * k))
