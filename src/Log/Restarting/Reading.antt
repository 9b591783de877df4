-- ===== src/Log/Restarting/Reading.antt =====
-- What Read finds in a log whose segments were each opened twice.
use mathlib.Core.List.{append-nil}
use aphros.Base.{
  ℕ, ◌+◌, ◌-◌, ◌≤◌, ◌<◌, ◌≡◌, refl, sym, ap, ◌∙◌, true, false, inl, inr, some, List, [], ◌∷◌, ◌++◌,
  arith, length, get_elem?, get_elem?-append_lt, get_elem?-append_ge, get_elem?-lt, leb, ltb,
  Bool-cases,
}
use aphros.Result.{Result, ok}
use aphros.Api.{Record, Codec}
use aphros.Disk.{Disk}
use aphros.Segment
use aphros.Segment.{Segment}
use aphros.Segment.Contents.{Holds, read-Holds}
use aphros.Log.{Env, read, covers, read_from, read_in}
use aphros.Log.Contents.{at_disk, HoldsAll, Chained, all_records}
use aphros.Log.Reading.{is_boundary, boundary_step, read_in_here, read_in_later}
use aphros.Log.Restarting.Opening.{OpenTwice, Doubled, none_open, one_open}

-- The first segment starts at `n`, and each other behind the records of the one before it.
abbrev pub Starts : ℕ → List Segment → List (List Record) → Type 0
Starts n [] rss = Unit
Starts n (s ∷ ss) [] = ⊥
Starts n (s ∷ ss) (rs ∷ rss) = (s.base_offset ≡ n) × Starts (n + length rs) ss rss

pub Chained-Starts :
    (k : Codec) (d : Disk) (n m : ℕ) (ss : List Segment) (rss : List (List Record))
    → n ≡ m
    → HoldsAll k d ss rss
    → Chained n ss
    → Starts m ss rss
Chained-Starts k d n m [] rss same h c = tt
Chained-Starts k d n m (s ∷ ss) [] same h c = absurd h
Chained-Starts k d n m (s ∷ ss) (rs ∷ rss) same (h, hs) (c, cs) = (
  c ∙ same,
  Chained-Starts k d s.next_offset (m + length rs) ss rss (omega (arith, h.next)) hs cs,
)

-- Read of an offset that the first segment has, in a log of that segment and others.
here_lem :
    (k : Codec) (off i : ℕ) (s : Segment) (ss : List Segment) (rs : List Record) (r : Record)
    (d : Disk)
    → Holds k (at_disk s d) rs
    → off ≡ s.base_offset + i
    → get_elem? rs i ≡ some r
    → (ss'' : List Segment) × (d' : Disk) × (read_in k off (s ∷ ss) d ≡ (ok r, (ss'', d')))
unfolding read_from
here_lem k off i s ss rs r d h same found =
    let (t, runs, _, _) = read-Holds k (at_disk s d) rs i r h found in
    let below = get_elem?-lt rs i found in
    let runs' : Segment.read k off (at_disk s d) ≡ (ok r, t) =
      ap (λ o. Segment.read k o (at_disk s d)) same ∙ runs in
    let inside : covers off s ≡ true = ground (arith, h.next) in
    let before : leb s.next_offset off ≡ false = ground (arith, h.next) in
    (t.self ∷ ss, t.disk, read_in_here k off s ss d inside (rw before runs'))

-- An offset behind both openings of a segment.
later_lem :
    (k : Codec) (m off : ℕ) (s s' t : Segment) (ss : List Segment) (rs : List Record) (r : Record)
    (d : Disk)
    → OpenTwice k m d s s' t rs
    → 0 < length rs
    → s.base_offset + length rs < off
    → (ss'' : List Segment) × (d' : Disk) × (read_in k off ss d ≡ (ok r, (ss'', d')))
    → (ss'' : List Segment) × (d' : Disk) × (read_in k off (s' ∷ (t ∷ ss)) d ≡ (ok r, (ss'', d')))
later_lem k m off s s' t ss rs r d h filled beyond (ss'', d', runs) =
    let outside : covers off s' ≡ false = ground (arith, h.holds.next, h.base_is) in
    let outside' : covers off t ≡ false = ground (arith, h.behind) in
    (
      s' ∷ (t ∷ ss''),
      d',
      read_in_later k off s' (t ∷ ss) d outside (read_in_later k off t ss d outside' runs),
    )

-- Read of an offset that the segments had, whatever segments there are behind them.
pub read_in-Doubled :
    (k : Codec) (m off n i : ℕ) (more ss ss' : List Segment) (rss : List (List Record)) (d : Disk)
    (r : Record)
    → Doubled k m d ss ss' rss
    → Starts n ss rss
    → off ≡ n + i
    → get_elem? (all_records rss) i ≡ some r
    → is_boundary n rss off ≡ false
    → (ss'' : List Segment) × (d' : Disk) × (read_in k off (ss' ++ more) d ≡ (ok r, (ss'', d')))
read_in-Doubled k m off n i more [] [] [] d r none_open starts same found clear = cc
read_in-Doubled k m off n i more (s ∷ ss) (s' ∷ (t ∷ ss')) (rs ∷ []) d r
      (one_open twice filled rest) (c, cs) same found clear =
    here_lem k off i s' (t ∷ (ss' ++ more)) rs r d twice.holds (omega (arith, c, twice.base_is))
      (rw (append-nil rs) at found)
read_in-Doubled k m off n i more (s ∷ ss) (s' ∷ (t ∷ ss')) (rs ∷ (ts ∷ rss)) d r
      (one_open twice filled rest) (c, cs) same found clear =
    elim (Bool-cases (ltb i (length rs))) [
      | inl inside ↦
          here_lem k off i s' (t ∷ (ss' ++ more)) rs r d twice.holds
            (omega (arith, c, twice.base_is))
            (sym (get_elem?-append_lt rs (all_records (ts ∷ rss)) i (ground arith)) ∙ found)
      | inr outside ↦
          let at_least : length rs ≤ i = ground arith in
          let (apart, clear') = boundary_step n rs ts rss off clear in
          let found' : get_elem? (all_records (ts ∷ rss)) (i - length rs) ≡ some r =
            sym (get_elem?-append_ge rs (all_records (ts ∷ rss)) i (i - length rs) (omega arith))
            ∙ found in
          later_lem k m off s s' t (ss' ++ more) rs r d twice filled (omega (arith, apart, c)) (
            read_in-Doubled k m off (n + length rs) (i - length rs) more ss ss' (ts ∷ rss) d r rest
              cs (omega arith) found' clear')
    ]
read_in-Doubled k m off n i more [] [] (rs ∷ rss) d r x starts same found clear = elim x [ ]
read_in-Doubled k m off n i more [] (s' ∷ ss') rss d r x starts same found clear = elim x [ ]
read_in-Doubled k m off n i more (s ∷ ss) [] rss d r x starts same found clear = elim x [ ]
read_in-Doubled k m off n i more (s ∷ ss) (s' ∷ []) rss d r x starts same found clear = elim x [ ]
read_in-Doubled k m off n i more (s ∷ ss) (s' ∷ (t ∷ ss')) [] d r x starts same found clear =
    elim x [ ]

pub read-Doubled :
    (k : Codec) (m n i : ℕ) (more ss ss' : List Segment) (rss : List (List Record)) (r : Record)
    (e : Env)
    → e.self.segments ≡ ss' ++ more
    → Doubled k m e.disk ss ss' rss
    → Starts n ss rss
    → get_elem? (all_records rss) i ≡ some r
    → is_boundary n rss (n + i) ≡ false
    → (e' : Env) × (read k (n + i) e ≡ (ok r, e'))
unfolding read
read-Doubled k m n i more ss ss' rss r e are doubled starts found clear =
    let (ss'', d'', reads) =
      read_in-Doubled k m (n + i) n i more ss ss' rss e.disk r doubled starts refl found clear in
    (
      record { self = record e.self { segments = ss'' }; disk = d'' },
      ap
          (λ (x : Result Record × (List Segment × Disk)).
            (x.0, record { self = record e.self { segments = x.1.0 }; disk = x.1.1 }))
          (ap (λ l. read_in k (n + i) l e.disk) are ∙ reads),
    )
