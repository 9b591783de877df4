-- ===== src/Log/Reading.antt =====
-- Read of a log: which offsets it finds.
use mathlib.Core.List.{append-nil}
use aphros.Base.{
  ℕ, ◌+◌, ◌-◌, ◌≤◌, ◌<◌, ◌≡◌, ◌≢◌, refl, sym, ap, ◌∙◌, subst, Bool, true, false, ◌||◌, inl, inr,
  some, List, [], ◌∷◌, ◌==◌, arith, length, get_elem?, get_elem?-append_lt, get_elem?-append_ge,
  get_elem?-lt, leb, ltb, Bool-cases,
}
use aphros.Result.{Result, ok}
use aphros.Api.{Record, Codec}
use aphros.Disk.{Disk}
use aphros.Segment
use aphros.Segment.{Segment}
use aphros.Segment.Contents.{Holds, Holds-kept, read-Holds}
use aphros.Log.{Env, covers, read_from, read_in, read}
use aphros.Log.Contents.{
  at_disk, HoldsAll, Chained, Avoids, AllApart, SameShape-refl, SameShapes, SameShapes-refl,
  Chained-same, AllApart-same, TouchesAll, TouchesAll-here, TouchesAll-later, HoldsAll-kept,
  all_records, IsLog,
}

-- The offset is where a segment ends and the next one starts.
abbrev pub is_boundary : ℕ → List (List Record) → ℕ → Bool
is_boundary n [] off = false
is_boundary n (rs ∷ []) off = false
is_boundary n (rs ∷ (ts ∷ rss)) off =
    off == n + length rs || is_boundary (n + length rs) (ts ∷ rss) off

-- What a read of the segments `ss` that succeeds with `r` leaves.
abbrev pub Finds : Codec → ℕ → List Segment → List (List Record) → Disk → Record → Type 0
Finds k off ss rss d r =
    (ss' : List Segment) × (d' : Disk) × (read_in k off ss d ≡ (ok r, (ss', d')))
    × HoldsAll k d' ss' rss
    × SameShapes ss ss'
    × TouchesAll ss d d'

module _ (k : Codec) (off : ℕ) (s : Segment) (ss : List Segment) (d : Disk) where
  pub read_in_here :
      {r : Result Record} {t : Segment.Env}
      → covers off s ≡ true
      → read_from k off s d ≡ (r, t)
      → read_in k off (s ∷ ss) d ≡ (r, (t.self ∷ ss, t.disk))
  unfolding read_in
  read_in_here inside runs =
      rw inside (ap (λ (x : Result Record × Segment.Env). (x.0, (x.1.self ∷ ss, x.1.disk))) runs)

  pub read_in_later :
      {r : Result Record} {ss' : List Segment} {d' : Disk}
      → covers off s ≡ false
      → read_in k off ss d ≡ (r, (ss', d'))
      → read_in k off (s ∷ ss) d ≡ (r, (s ∷ ss', d'))
  unfolding read_in
  read_in_later outside runs =
      rw outside
        (ap (λ (x : Result Record × (List Segment × Disk)). (x.0, (s ∷ x.1.0, x.1.1))) runs)

-- The first segment has the offset.
Finds-here :
    (k : Codec) (off i : ℕ) (s : Segment) (ss : List Segment) (rs : List Record)
    (rss : List (List Record)) (d : Disk) (r : Record)
    → Holds k (at_disk s d) rs
    → HoldsAll k d ss rss
    → Avoids s.store.ino ss
    → Avoids s.index.ino ss
    → off ≡ s.base_offset + i
    → get_elem? rs i ≡ some r
    → Finds k off (s ∷ ss) (rs ∷ rss) d r
unfolding read_from
Finds-here k off i s ss rs rss d r h hs a b same found =
    let (t, runs, holds, keeps) = read-Holds k (at_disk s d) rs i r h found in
    let below = get_elem?-lt rs i found in
    let runs' : Segment.read k off (at_disk s d) ≡ (ok r, t) =
      ap (λ o. Segment.read k o (at_disk s d)) same ∙ runs in
    let inside : covers off s ≡ true = ground (arith, h.next) in
    let before : leb s.next_offset off ≡ false = ground (arith, h.next) in
    (
      t.self ∷ ss,
      t.disk,
      read_in_here k off s ss d inside (rw before runs'),
      (holds, HoldsAll-kept k ss rss keeps.touches a b hs),
      (
        record {
          base_same = keeps.base_same;
          next_same = holds.next ∙ ap (λ m. m + length rs) keeps.base_same ∙ sym h.next;
          store_ino_same = keeps.store_ino_same;
          index_ino_same = keeps.index_ino_same;
          mapped_same = keeps.mapped_same;
          config_same = keeps.config_same;
        },
        SameShapes-refl ss,
      ),
      TouchesAll-here ss keeps.touches,
    )

-- A later segment has the offset.
Finds-later :
    (k : Codec) (off : ℕ) (s : Segment) (ss : List Segment) (rs : List Record)
    (rss : List (List Record)) (d : Disk) (r : Record)
    → Holds k (at_disk s d) rs
    → Avoids s.store.ino ss
    → Avoids s.index.ino ss
    → s.next_offset < off
    → Finds k off ss rss d r
    → Finds k off (s ∷ ss) (rs ∷ rss) d r
Finds-later k off s ss rs rss d r h a b beyond (ss', d', runs, holds, same, touches) =
    let outside : covers off s ≡ false = ground arith in
    (
      s ∷ ss',
      d',
      read_in_later k off s ss d outside runs,
      (
        Holds-kept k s rs d d' (touches.others s.store.ino a) (touches.others s.index.ino b) h,
        holds,
      ),
      (SameShape-refl s, same),
      TouchesAll-later s touches,
    )

pub boundary_step :
    (n : ℕ) (rs ts : List Record) (rss : List (List Record)) (off : ℕ)
    → is_boundary n (rs ∷ (ts ∷ rss)) off ≡ false
    → (off ≢ n + length rs) × (is_boundary (n + length rs) (ts ∷ rss) off ≡ false)
boundary_step n rs ts rss off h = (ground arith, ground arith)

-- An offset that has a record, and at which no later segment starts, is found.
pub read_in_lem :
    (k : Codec) (off n : ℕ) (ss : List Segment) (rss : List (List Record)) (d : Disk) (i : ℕ)
    (r : Record)
    → HoldsAll k d ss rss
    → Chained n ss
    → AllApart ss
    → off ≡ n + i
    → get_elem? (all_records rss) i ≡ some r
    → is_boundary n rss off ≡ false
    → Finds k off ss rss d r
read_in_lem k off n [] [] d i r h c a same found clear = cc
read_in_lem k off n [] (rs ∷ rss) d i r h c a same found clear = absurd h
read_in_lem k off n (s ∷ ss) [] d i r h c a same found clear = absurd h
read_in_lem k off n (s ∷ ss) (rs ∷ []) d i r (h, hs) (c, cs) (a₁, a₂, as_) same found clear =
    Finds-here k off i s ss rs [] d r h hs a₁ a₂ (omega (arith, c)) (rw (append-nil rs) at found)
read_in_lem k off n (s ∷ ss) (rs ∷ (ts ∷ rss)) d i r (h, hs) (c, cs) (a₁, a₂, as_) same found
      clear =
    elim (Bool-cases (ltb i (length rs))) [
      | inl inside ↦
          Finds-here k off i s ss rs (ts ∷ rss) d r h hs a₁ a₂ (omega (arith, c))
            (sym (get_elem?-append_lt rs (all_records (ts ∷ rss)) i (ground arith)) ∙ found)
      | inr outside ↦
          let at_least : length rs ≤ i = ground arith in
          let (apart, clear') = boundary_step n rs ts rss off clear in
          let ends : s.next_offset ≡ n + length rs = omega (arith, h.next, c) in
          let beyond : s.next_offset < off = omega (arith, apart) in
          let found' : get_elem? (all_records (ts ∷ rss)) (i - length rs) ≡ some r =
            sym (get_elem?-append_ge rs (all_records (ts ∷ rss)) i (i - length rs) (omega arith))
            ∙ found in
          Finds-later k off s ss rs (ts ∷ rss) d r h a₁ a₂ beyond (
            read_in_lem k off s.next_offset ss (ts ∷ rss) d (i - length rs) r hs cs as_
              (omega arith) found'
              (subst (λ m. is_boundary m (ts ∷ rss) off ≡ false) (sym ends) clear'))
    ]

-- Read finds the record of every offset that the log holds and at which no later segment starts,
-- and leaves a log that holds the same.
pub read-found :
    (k : Codec) (e : Env) (n i : ℕ) (rss : List (List Record)) (r : Record)
    → IsLog k e n rss
    → get_elem? (all_records rss) i ≡ some r
    → is_boundary n rss (n + i) ≡ false
    → (e' : Env) × (read k (n + i) e ≡ (ok r, e')) × IsLog k e' n rss
unfolding read
read-found k e n i rss r h found clear =
    let (ss', d', runs, holds, same, _) =
      read_in_lem k (n + i) n e.self.segments rss e.disk i r h.holds h.chained h.apart refl found
        clear in
    (
      record { self = record e.self { segments = ss' }; disk = d' },
      ap
          (λ (x : Result Record × (List Segment × Disk)).
            (x.0, record { self = record e.self { segments = x.1.0 }; disk = x.1.1 }))
          runs,
      record {
        holds = holds;
        chained = Chained-same n e.self.segments ss' same h.chained;
        apart = AllApart-same e.self.segments ss' same h.apart;
        attached = h.attached;
      },
    )
