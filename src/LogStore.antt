-- ===== src/LogStore.antt =====
-- internal/log/distributed.go: logStore, the log as the store that Raft keeps its entries in.
pub mod Batches
use aphros.Base.{ℕ, ◌%◌, ◌<◌, ◌≡◌, ap, ◌∙◌, false, some, List, [], ◌∷◌, arith, length, inl}
use aphros.Result.{Result, panic, ok, err, Exec, pure, ◌>>=◌, ◌>>◌, >>=-ok, >>=-err}
use aphros.Api.{Record, Codec}
use aphros.Disk.{Disk}
use aphros.Segment.{Config, is_maxed, Segment}
use aphros.Segment.Appending.{Fits}
use aphros.Log
use aphros.Log.{Env, last?, lowest_offset, highest_offset, new_log, truncate}
use aphros.Log.Contents.{at_disk, IsLog}
use aphros.Log.Lifecycle.{AllExpired, truncate_all}
use aphros.Log.RoundTrip.{read-append}

-- raft.Log.
pub record Entry : Type 0 where
  pub index : ℕ
  pub term : ℕ
  pub kind : ℕ
  pub data_ : List ℕ

-- newLogStore.
unfoldable pub new_log_store : Config → Disk → Result (Unit {0}) × Env
new_log_store c d = new_log c d

unfoldable pub first_index : Exec Env ℕ
first_index = lowest_offset

unfoldable pub last_index : Exec Env ℕ
last_index = do off ← highest_offset; pure off

-- raft.LogType is a byte.
abbrev pub entry_of : Record → Entry
entry_of r = record { index = r.offset; term = r.term; kind = r.kind % 256; data_ = r.value }

abbrev pub record_of : Entry → Record
record_of x = record { value = x.data_; offset = 0; term = x.term; kind = x.kind }

pub get_log : Codec → ℕ → Exec Env Entry
get_log k index = do r ← Log.read k index; pure (entry_of r)

pub store_logs : Codec → List Entry → Exec Env (Unit {0})
store_logs k [] = pure tt
store_logs k (x ∷ xs) = do Log.append k (record_of x); store_logs k xs

pub store_log : Codec → Entry → Exec Env (Unit {0})
store_log k x = store_logs k (x ∷ [])

-- The lower end is ignored.
unfoldable pub delete_range : ℕ → ℕ → Exec Env (Unit {0})
delete_range min max = truncate max

-- StoreLog of an entry that encodes and fits, its type a byte, on a last segment that is not full and
-- has an entry: GetLog at the offset that
-- the log gave it returns the entry, with that offset for its index and not the index it came with.
pub get_log-store_log :
    (k : Codec) (e : Env) (n : ℕ) (rss : List (List Record)) (rs : List Record) (s : Segment)
    (x : Entry) (p : List ℕ)
    → IsLog k e n rss
    → last? e.self.segments ≡ some s
    → last? rss ≡ some rs
    → 0 < length rs
    → Fits k (at_disk s e.disk) (record_of x) p
    → is_maxed s ≡ false
    → x.kind < 256
    → (off : ℕ) × (e' : Env) × (e'' : Env) × (store_log k x e ≡ (ok tt, e'))
      × (get_log k off e' ≡ (ok (record x { index = off }), e''))
unfolding store_log store_logs get_log
get_log-store_log k e n rss rs s x p h found found' pos fits open_ small =
    let (off, e', e'', runs, reads, _) =
      read-append k e n rss rs s (record_of x) p h found found' (inl pos) fits open_ in
    (
      off,
      e',
      e'',
      >>=-ok (Log.append k (record_of x)) _ runs,
      >>=-ok (Log.read k off) _ reads
          ∙ ap (λ t. (ok (record x { index = off; kind = t }), e'')) (omega arith),
    )

-- DeleteRange up to an index that every segment ends at or below, from whatever lower index, leaves no
-- segment where it succeeds, and FirstIndex and LastIndex panic from then on.
pub delete_range_all :
    (min max : ℕ) (e e' : Env)
    → AllExpired max e.self.segments
    → delete_range min max e ≡ (ok tt, e')
    → (e'.self.segments ≡ [])
      × (first_index e' ≡ (err panic, e'))
      × (last_index e' ≡ (err panic, e'))
unfolding delete_range first_index last_index
delete_range_all min max e e' h runs =
    let (nil, lowest, highest) = truncate_all max e e' h runs in
    (nil, lowest, >>=-err highest_offset _ highest)
