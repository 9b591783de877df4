-- ===== src/Log.antt =====
-- internal/log/log.go: the log, a list of segments of which the last takes the appends.
pub mod Contents
pub mod Reading
pub mod Refusing
pub mod Growing
pub mod Appending
pub mod Rotating
pub mod RoundTrip
pub mod Lifecycle
pub mod Truncating
pub mod Opening
pub mod Representing
pub mod History
pub mod Expected
pub mod Restarting
use aphros.Base.{
  ℕ, ◌+◌, ◌-◌, ◌≤◌, Bool, ◌&&◌, Option, none, some, List, [], ◌∷◌, ◌++◌, ◌==◌, ltb, leb,
  if◌then◌else◌, u64,
}
use mathlib.Core.List.{map}
use aphros.Result.{
  Error, panic, out_of_range, Result, ok, err, Exec, pure, raise, lift, gets, modify, ◌>>=◌, ◌>>◌,
}
use aphros.Api.{Record, Codec}
use aphros.Disk.{Disk, FileName, store_file, index_file, foreign, read_dir, remove_all}
use aphros.Segment
use aphros.Segment.{Segment, Config}

-- `active` is `none` while activeSegment is the last of the segments, and else the segment that
-- Truncate has taken off the list.
pub record Log : Type 0 where
  pub config : Config
  pub segments : List Segment
  pub active : Option Segment

pub record Env : Type 0 where
  pub self : Log
  pub disk : Disk

abbrev pub on_disk : {A : Type 0} → Exec Disk A → Exec Env A
on_disk m e = let (r, d) = m e.disk in (r, record { self = e.self; disk = d })

abbrev pub last? {ℓ} : {A : Type ℓ} → List A → Option A
last? [] = none
last? (s ∷ []) = some s
last? (s ∷ t ∷ rest) = last? (t ∷ rest)

abbrev pub set_last {ℓ} : {A : Type ℓ} → List A → A → List A
set_last [] x = []
set_last (s ∷ []) x = x ∷ []
set_last (s ∷ t ∷ rest) x = s ∷ set_last (t ∷ rest) x

-- A nil pointer or an index out of range panics.
abbrev pub or_panic {ℓ} : {A : Type ℓ} → Option A → Result A
or_panic none = err panic
or_panic (some a) = ok a

-- l.newSegment.
pub add_segment : ℕ → Exec Env (Unit {0})
add_segment off = do
  c ← gets (λ e. e.self.config)
  s ← on_disk (Segment.new_segment off c)
  modify (λ e. record e {
    self = record e.self { segments = e.self.segments ++ (s ∷ []); active = none };
  })

-- The number that setup makes of a file's name.
abbrev pub parsed_offset : FileName → ℕ
parsed_offset (store_file n) = n
parsed_offset (index_file n) = n
parsed_offset (foreign n) = n

-- sort.Slice, on numbers.
unfoldable pub insert : ℕ → List ℕ → List ℕ
insert a [] = a ∷ []
insert a (b ∷ bs) = if leb a b then a ∷ b ∷ bs else b ∷ insert a bs

unfoldable pub sort : List ℕ → List ℕ
sort [] = []
sort (a ∷ as_) = insert a (sort as_)

pub add_segments : List ℕ → Exec Env (Unit {0})
add_segments [] = pure tt
add_segments (off ∷ rest) = do add_segment off; add_segments rest

abbrev pub is_nil {ℓ} : {A : Type ℓ} → List A → Bool
is_nil [] = Bool.true
is_nil (x ∷ xs) = Bool.false

-- A log is never left without a segment.
pub ensure_segment : Exec Env (Unit {0})
ensure_segment = do
  missing ← gets (λ e. is_nil e.self.segments)
  first ← gets (λ e. e.self.config.initial_offset)
  if missing then add_segment first else pure tt

pub setup : Exec Env (Unit {0})
setup = do files ← on_disk read_dir; add_segments (sort (map parsed_offset files)); ensure_segment

-- NewLog: a limit of 0 stands for 1024.
abbrev pub with_defaults : Config → Config
with_defaults c = record {
  max_store_bytes = if c.max_store_bytes == 0 then 1024 else c.max_store_bytes;
  max_index_bytes = if c.max_index_bytes == 0 then 1024 else c.max_index_bytes;
  initial_offset = c.initial_offset;
}

pub new_log : Config → Disk → Result (Unit {0}) × Env
new_log c d =
    setup (record {
      self = record { config = with_defaults c; segments = []; active = none };
      disk = d;
    })

pub highest_offset : Exec Env ℕ
highest_offset = do
  s ← λ e. (or_panic (last? e.self.segments), e)
  pure (if s.next_offset == 0 then 0 else s.next_offset - 1)

abbrev pub head? : List Segment → Option Segment
head? [] = none
head? (s ∷ rest) = some s

unfoldable pub lowest_offset : Exec Env ℕ
lowest_offset = do s ← λ e. (or_panic (head? e.self.segments), e); pure s.base_offset

-- The active segment, and a method of it.
abbrev pub active_in : Option Segment → List Segment → Option Segment
active_in none ss = last? ss
active_in (some s) ss = some s

abbrev pub put_in : Option Segment → Log → Segment → Log
put_in none l s = record l { segments = set_last l.segments s }
put_in (some _) l s = record l { active = some s }

pub get_active : Exec Env Segment
get_active e = (or_panic (active_in e.self.active e.self.segments), e)

abbrev pub on_active : {A : Type 0} → Exec Segment.Env A → Segment → Exec Env A
on_active m s e =
    let (r, t) = m (record { self = s; disk = e.disk }) in
    (r, record { self = put_in e.self.active e.self t.self; disk = t.disk })

-- A new segment if the active one is full.
pub rotate : ℕ → Segment → Exec Env (Unit {0})
rotate highest s = if Segment.is_maxed s then add_segment (u64 (highest + 1)) else pure tt

pub append_active : Codec → Record → Exec Env ℕ
append_active k r = do s ← get_active; on_active (Segment.append k r) s

pub append : Codec → Record → Exec Env ℕ
append k r = do highest ← highest_offset; s ← get_active; rotate highest s; append_active k r

-- The first segment whose range, its end included, has the offset.
abbrev pub covers : ℕ → Segment → Bool
covers off s = leb s.base_offset off && leb off s.next_offset

-- A read of one segment: an offset at its end is out of range.
pub read_from : Codec → ℕ → Segment → Disk → Result Record × Segment.Env
read_from k off s d =
    if leb s.next_offset off
    then (err (out_of_range off), record { self = s; disk = d })
    else Segment.read k off (record { self = s; disk = d })

pub read_in : Codec → ℕ → List Segment → Disk → Result Record × (List Segment × Disk)
read_in k off [] d = (err (out_of_range off), ([], d))
read_in k off (s ∷ rest) d =
    let here : Result Record × (List Segment × Disk) =
      let (r, t) = read_from k off s d in (r, (t.self ∷ rest, t.disk)) in
    let later : Result Record × (List Segment × Disk) =
      let (r, (rest', d')) = read_in k off rest d in (r, (s ∷ rest', d')) in
    if covers off s then here else later

pub read : Codec → ℕ → Exec Env Record
read k off e =
    let (r, (segments, d)) = read_in k off e.self.segments e.disk in
    (r, record { self = record e.self { segments = segments }; disk = d })

-- The first error ends the loop; the segments before it are closed.
close_all : List Segment → Disk → Result (Unit {0}) × (List Segment × Disk)
close_all [] d = (ok tt, ([], d))
close_all (s ∷ rest) d =
    let (r, t) = Segment.close (record { self = s; disk = d }) in
    let (r', (rest', d')) = close_all rest t.disk in
    elim r [ ok _ ↦ (r', (t.self ∷ rest', d')) | err x ↦ (err x, (t.self ∷ rest, t.disk)) ]

pub close : Exec Env (Unit {0})
close e =
    let (r, (segments, d)) = close_all e.self.segments e.disk in
    (r, record { self = record e.self { segments = segments }; disk = d })

pub remove : Exec Env (Unit {0})
remove = do close; on_disk remove_all

pub reset : Exec Env (Unit {0})
reset = do remove; setup

-- Truncate removes the segments that hold nothing above `lowest`.
abbrev pub expired : ℕ → Segment → Bool
expired lowest s = leb s.next_offset (u64 (lowest + 1))

abbrev keep_also : Segment → Result (List Segment) → Result (List Segment)
keep_also s (ok kept) = ok (s ∷ kept)
keep_also s (err x) = err x

-- The loop of Truncate: what is kept, and all the segments as the loop leaves them.
unfoldable pub truncate_in : ℕ → List Segment → Disk → Result (List Segment) × (List Segment × Disk)
truncate_in lowest [] d = (ok [], ([], d))
truncate_in lowest (s ∷ rest) d =
    let (removed, t) = Segment.remove (record { self = s; disk = d }) in
    let gone : Result (List Segment) × (List Segment × Disk) =
      let (r, (all, d')) = truncate_in lowest rest t.disk in
      elim removed [ ok _ ↦ (r, (t.self ∷ all, d')) | err x ↦ (err x, (t.self ∷ rest, t.disk)) ] in
    let kept : Result (List Segment) × (List Segment × Disk) =
      let (r, (all, d')) = truncate_in lowest rest d in (keep_also s r, (s ∷ all, d')) in
    if expired lowest s then gone else kept

-- activeSegment still points to the segment that was the last.
abbrev pub last_after : ℕ → Option Segment → Option Segment
last_after lowest none = none
last_after lowest (some s) = if expired lowest s then some s else none

abbrev pub active_from : ℕ → Option Segment → Option Segment → Option Segment
active_from lowest (some s) last = some s
active_from lowest none last = last_after lowest last

abbrev active_after : ℕ → Log → List Segment → Option Segment
active_after lowest l all = active_from lowest l.active (last? all)

unfoldable pub truncate : ℕ → Exec Env (Unit {0})
truncate lowest e =
    let (r, (all, d)) = truncate_in lowest e.self.segments e.disk in
    elim r [
      | ok kept ↦ (
        ok tt,
        record {
          self = record e.self { segments = kept; active = active_after lowest e.self all };
          disk = d;
        },
      )
      | err x ↦ (err x, record { self = record e.self { segments = all }; disk = d })
    ]
