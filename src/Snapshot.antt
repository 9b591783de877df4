-- ===== src/Snapshot.antt =====
-- internal/log/distributed.go: the snapshots that the state machine gives to Raft, and the reader of
-- internal/log/log.go below them. Raft's SnapshotSink is the parameter `Sink`, over its states `S`; a
-- write that takes fewer bytes than it was given is an error.
pub mod Copying
pub mod Persisting
pub mod Restoring
use aphros.Base.{ℕ, zero, suc, ◌+◌, Bool, List, [], ◌∷◌, length, if◌then◌else◌}
use aphros.Result.{panic, Result, ok, err, Exec, pure, raise, ◌>>=◌, ◌>>◌}
use aphros.Disk.{Disk}
use aphros.Store
use aphros.Segment
use aphros.Segment.{Segment}
use aphros.Log

pub record Sink (S : Type 0) : Type 0 where
  pub write : List ℕ → Exec S (Unit {0})
  pub close : Exec S (Unit {0})
  pub cancel : Exec S (Unit {0})

-- A store, and the sink that it is copied to.
pub record Env (S : Type 0) : Type 0 where
  pub from : Store.Env
  pub to : S

-- io.Copy's buffer.
abbrev pub copy_size : ℕ
copy_size = 32768

module _ {S : Type 0} where
  abbrev pub on_store : {A : Type 0} → Exec Store.Env A → Exec (Env S) A
  on_store m e = let (r, t) = m e.from in (r, record { from = t; to = e.to })

  abbrev pub on_sink : {A : Type 0} → Exec S A → Exec (Env S) A
  on_sink m e = let (r, s) = m e.to in (r, record { from = e.from; to = s })

  -- Nothing is written where nothing was read.
  pub emit : Sink S → List ℕ → Exec (Env S) (Unit {0})
  emit sink [] = pure tt
  emit sink (b ∷ bs) = on_sink (sink.write (b ∷ bs))

  -- io.Copy from an originReader at `off`: a round reads, writes, and goes on behind what it read
  -- until the end of the file.
  pub copy_rounds : Sink S → ℕ → ℕ → Exec (Env S) (Unit {0})
  copy_rounds sink zero off = raise panic
  copy_rounds sink (suc fuel) off = do
    (bytes, ended) ← on_store (Store.read_at copy_size off)
    emit sink bytes
    if ended then pure tt else copy_rounds sink fuel (off + length bytes)

  -- A round that goes on has read some bytes, so one for each byte is enough.
  pub copy_store : Sink S → Exec (Env S) (Unit {0})
  copy_store sink e =
      copy_rounds sink (suc (length (Store.file_of e.from).bytes + length e.from.self.buf)) 0 e

  -- io.MultiReader over the stores of the segments, one behind the other.
  pub copy_segments :
      Sink S → List Segment → Disk → S → Result (Unit {0}) × (List Segment × (Disk × S))
  copy_segments sink [] d s = (ok tt, ([], (d, s)))
  copy_segments sink (g ∷ rest) d s =
      let here = Segment.store_env (record { self = g; disk = d }) in
      let (r, e) = copy_store sink (record { from = here; to = s }) in
      let g' : Segment = record g { store = e.from.self } in
      let (r', (rest', end)) = copy_segments sink rest e.from.disk e.to in
      elim r [ ok _ ↦ (r', (g' ∷ rest', end)) | err x ↦ (err x, (g' ∷ rest, (e.from.disk, e.to))) ]

  -- Persist of the snapshot that Snapshot made: what Cancel returns is dropped.
  finish : Sink S → Result (Unit {0}) → Exec S (Unit {0})
  finish sink (ok _) s = sink.close s
  finish sink (err x) s = let (_, s') = sink.cancel s in (err x, s')

  pub persist : Sink S → Exec (Log.Env × S) (Unit {0})
  persist sink (e, s) =
      let (r, (segments, (d, s'))) = copy_segments sink e.self.segments e.disk s in
      let (r', s'') = finish sink r s' in
      (r', (record { self = record e.self { segments = segments }; disk = d }, s''))
