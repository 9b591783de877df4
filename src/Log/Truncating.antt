-- ===== src/Log/Truncating.antt =====
-- Truncate of a log that keeps some of its segments.
use aphros.Base.{
  ℕ, ◌+◌, ◌<◌, ◌≡◌, ◌≢◌, refl, ap, ◌∙◌, subst, false, none, some, List, [], ◌∷◌, ◌++◌, arith,
  length, length-append, leb→>, u64, if◌then◌else◌,
}
use aphros.Result.{Result, ok, err}
use aphros.Api.{Record, Codec}
use aphros.Disk.{Disk}
use aphros.Segment
use aphros.Segment.{Segment}
use aphros.Segment.Removing.{CanRemove, Removed, remove_lem, CanRemove-kept}
use aphros.Log
use aphros.Log.{Env, last?, expired, truncate_in, truncate, active_after, active_from, last_after}
use aphros.Log.Contents.{
  at_disk, HoldsAll, HoldsAll-others, Chained, Avoids, AllApart, all_records, IsLog,
}
use aphros.Log.Lifecycle.{AllExpired}

-- Truncate keeps all of these.
abbrev AllKept : ℕ → List Segment → Type 0
AllKept lowest [] = Unit
AllKept lowest (s ∷ ss) = (expired lowest s ≡ false) × AllKept lowest ss

-- Every one of the segments can be removed, and no two start at one offset.
abbrev BasesAvoid : ℕ → List Segment → Type 0
BasesAvoid base [] = Unit
BasesAvoid base (s ∷ ss) = (base ≢ s.base_offset) × BasesAvoid base ss

abbrev pub AllRemovable : Disk → List Segment → Type 0
AllRemovable d [] = Unit
AllRemovable d (s ∷ ss) =
    CanRemove d s.base_offset s.index.ino × BasesAvoid s.base_offset ss × AllRemovable d ss

AllRemovable-kept :
    (ss : List Segment) (base i j : ℕ) (d d' : Disk)
    → Removed base i j d d'
    → BasesAvoid base ss
    → AllRemovable d ss
    → AllRemovable d' ss
AllRemovable-kept [] base i j d d' gone avoids can = tt
AllRemovable-kept (s ∷ ss) base i j d d' gone (apart, avoids) (can, bases, cans) = (
  CanRemove-kept base i j d d' s.base_offset s.index.ino gone apart can,
  bases,
  AllRemovable-kept ss base i j d d' gone avoids cans,
)

-- The segments behind one that is kept are kept.
kept_behind :
    (k : Codec) (lowest n : ℕ) (ss : List Segment) (rss : List (List Record)) (d : Disk)
    → HoldsAll k d ss rss
    → Chained n ss
    → u64 (lowest + 1) < n
    → AllKept lowest ss
kept_behind k lowest n [] rss d h c above = tt
kept_behind k lowest n (s ∷ ss) [] d h c above = absurd h
kept_behind k lowest n (s ∷ ss) (rs ∷ rss) d (h, hs) (c, cs) above = (
  ground (arith, h.next),
  kept_behind k lowest s.next_offset ss rss d hs cs (omega (arith, h.next)),
)

truncate_none :
    (lowest : ℕ) (ss : List Segment) (d : Disk)
    → AllKept lowest ss
    → truncate_in lowest ss d ≡ (ok ss, (ss, d))
unfolding truncate_in
truncate_none lowest [] d kept = refl
truncate_none lowest (s ∷ ss) d (here, kept) =
    rw here (ground (arith, truncate_none lowest ss d kept))

-- What the loop leaves of the segments before `kept`, and of the disk.
record Cut (k : Codec) (lowest n : ℕ) (gs ks : List Segment) (gone rest : List (List Record))
    (d : Disk) : Type 0 where
  left : List Segment
  disk : Disk
  runs : truncate_in lowest (gs ++ ks) d ≡ (ok ks, (left ++ ks, disk))
  holds : HoldsAll k disk ks rest
  starts : Chained (n + length (all_records gone)) ks
  apart : AllApart ks

Avoids-behind : (i : ℕ) (gs ks : List Segment) → Avoids i (gs ++ ks) → Avoids i ks
Avoids-behind i [] ks a = a
Avoids-behind i (g ∷ gs) ks (_, _, a) = Avoids-behind i gs ks a

truncate_in-Cut :
    (k : Codec) (lowest n : ℕ) (gs ks : List Segment) (gone rest : List (List Record)) (d : Disk)
    → length gs ≡ length gone
    → HoldsAll k d (gs ++ ks) (gone ++ rest)
    → Chained n (gs ++ ks)
    → AllApart (gs ++ ks)
    → AllExpired lowest gs
    → AllKept lowest ks
    → AllRemovable d gs
    → Cut k lowest n gs ks gone rest d
unfolding truncate_in
truncate_in-Cut k lowest n [] ks [] rest d same h c apart old kept can = record {
  left = [];
  disk = d;
  runs = truncate_none lowest ks d kept;
  holds = h;
  starts = subst (λ m. Chained m ks) (omega arith) c;
  apart = apart;
}
truncate_in-Cut k lowest n [] ks (rs ∷ gone) rest d same h c apart old kept can =
    absurd (omega arith)
truncate_in-Cut k lowest n (g ∷ gs) ks [] rest d same h c apart old kept can = absurd (omega arith)
truncate_in-Cut k lowest n (g ∷ gs) ks (rs ∷ gone) rest d same (h, hs) (c, cs) (a, b, apart)
      (here, old) kept (can, bases, cans) =
    let (t, removes, removed) = remove_lem k (at_disk g d) rs h can in
    let cut =
      truncate_in-Cut k lowest g.next_offset gs ks gone rest t.disk (omega arith)
        (HoldsAll-others k (gs ++ ks) (gone ++ rest) d t.disk removed.others a b hs) cs apart old
        kept
        (AllRemovable-kept gs g.base_offset g.store.ino g.index.ino d t.disk removed bases cans) in
    record {
      left = t.self ∷ cut.left;
      disk = cut.disk;
      runs = rw here (
          ap
            (λ (x : Result (Unit {0}) × Segment.Env).
              let (r, (all, d')) = truncate_in lowest (gs ++ ks) x.1.disk in
              let y : Result (List Segment) × (List Segment × Disk) = elim x.0 [
                | ok _ ↦ (r, (x.1.self ∷ all, d'))
                | err z ↦ (err z, (x.1.self ∷ (gs ++ ks), x.1.disk))
              ] in
              y)
            removes
          ∙ ap
              (λ (x : Result (List Segment) × (List Segment × Disk)).
                (x.0, (t.self ∷ x.1.0, x.1.1)))
              cut.runs);
      holds = cut.holds;
      starts =
          subst (λ m. Chained m ks)
            (omega (arith, h.next, c, length-append {0} rs (all_records gone))) cut.starts;
      apart = cut.apart;
    }

last?-append {ℓ} : {A : Type ℓ} (xs ys : List A) (y : A) → last? (xs ++ (y ∷ ys)) ≡ last? (y ∷ ys)
last?-append [] ys y = refl
last?-append (x ∷ []) ys y = refl
last?-append (x ∷ (z ∷ xs)) ys y = last?-append (z ∷ xs) ys y

-- The last of the segments that are kept is no segment that Truncate removes.
last_kept :
    (lowest : ℕ) (s : Segment) (ss : List Segment)
    → AllKept lowest (s ∷ ss)
    → (t : Segment) × (last? (s ∷ ss) ≡ some t) × (expired lowest t ≡ false)
last_kept lowest s [] (here, _) = (s, refl, here)
last_kept lowest s (t ∷ ss) (_, kept) = last_kept lowest t ss kept

kept_after :
    (k : Codec) (lowest n : ℕ) (gs ks : List Segment) (s : Segment) (gone rest : List (List Record))
    (d : Disk)
    → length gs ≡ length gone
    → HoldsAll k d (gs ++ (s ∷ ks)) (gone ++ rest)
    → Chained n (gs ++ (s ∷ ks))
    → expired lowest s ≡ false
    → AllKept lowest (s ∷ ks)
kept_after k lowest n [] ks s [] [] d same h c keeps = absurd h
kept_after k lowest n [] ks s [] (rs ∷ rest) d same (h, hs) (c, cs) keeps =
    (keeps, kept_behind k lowest s.next_offset ks rest d hs cs (leb→> _ _ keeps))
kept_after k lowest n [] ks s (rs ∷ gone) rest d same h c keeps = absurd (omega arith)
kept_after k lowest n (g ∷ gs) ks s [] rest d same h c keeps = absurd (omega arith)
kept_after k lowest n (g ∷ gs) ks s (rs ∷ gone) rest d same (_, hs) (_, cs) keeps =
    kept_after k lowest g.next_offset gs ks s gone rest d (omega arith) hs cs keeps

-- activeSegment is the last of the segments still.
after_kept :
    (lowest : ℕ) (l : Log.Log) (all : List Segment) (t : Segment)
    → l.active ≡ none
    → last? all ≡ some t
    → expired lowest t ≡ false
    → active_after lowest l all ≡ none
after_kept lowest l all t attached last stays =
    ap (λ o. active_from lowest o (last? all)) attached
    ∙ ap (last_after lowest) last
    ∙ ap (λ b. if b then some t else none) stays

-- Truncate of a log of which the first segments, all with their files in place, hold nothing above
-- `lowest`, and the next one does: it succeeds, keeps that one and those behind it as they were, and
-- the log holds their records, the first at the offset behind those that are gone.
pub truncate_keeps :
    (k : Codec) (lowest n : ℕ) (e : Env) (gs ks : List Segment) (s : Segment)
    (gone rest : List (List Record))
    → IsLog k e n (gone ++ rest)
    → e.self.segments ≡ gs ++ (s ∷ ks)
    → length gs ≡ length gone
    → AllExpired lowest gs
    → expired lowest s ≡ false
    → AllRemovable e.disk gs
    → (e' : Env) × (truncate lowest e ≡ (ok tt, e'))
      × (e'.self.segments ≡ s ∷ ks)
      × IsLog k e' (n + length (all_records gone)) rest
unfolding truncate
truncate_keeps k lowest n e gs ks s gone rest h split same old keeps can =
    let holds = subst (λ ss. HoldsAll k e.disk ss (gone ++ rest)) split h.holds in
    let chained = subst (Chained n) split h.chained in
    let kept = kept_after k lowest n gs ks s gone rest e.disk same holds chained keeps in
    let cut =
      truncate_in-Cut k lowest n gs (s ∷ ks) gone rest e.disk same holds chained
        (subst AllApart split h.apart) old kept can in
    let all = cut.left ++ (s ∷ ks) in
    let (t, found, stays) = last_kept lowest s ks kept in
    let last : last? all ≡ some t = last?-append cut.left ks s ∙ found in
    let active : active_after lowest e.self all ≡ none =
      after_kept lowest e.self all t h.attached last stays in
    let after : Env = record {
      self = record e.self { segments = s ∷ ks; active = active_after lowest e.self all };
      disk = cut.disk;
    } in
    (
      after,
      ap
          (λ (x : Result (List Segment) × (List Segment × Disk)).
            let y : Result (Unit {0}) × Env = elim x.0 [
              | ok kept ↦ (
                ok tt,
                record {
                  self = record e.self {
                    segments = kept;
                    active = active_after lowest e.self x.1.0;
                  };
                  disk = x.1.1;
                },
              )
              | err z ↦ (err z, record { self = record e.self { segments = x.1.0 }; disk = x.1.1 })
            ] in
            y)
          (ap (λ ss. truncate_in lowest ss e.disk) split ∙ cut.runs),
      refl,
      record { holds = cut.holds; chained = cut.starts; apart = cut.apart; attached = active },
    )
