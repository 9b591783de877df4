-- ===== src/Log/Restarting.antt =====
-- A log of any number of segments that is closed: what its files then hold.
pub mod Opening
pub mod Reading
pub mod Names
pub mod Durable
pub mod Appending
pub mod Crashing
use aphros.Base.{ℕ, ◌≡◌, ◌≢◌, refl, sym, ap, ◌∙◌, Bool, true, false, List, [], ◌∷◌, length}
use aphros.Result.{Result, ok, err}
use aphros.Api.{Record, Codec}
use aphros.Disk.{Disk}
use aphros.Disk.Frame.{TouchesTwo}
use aphros.Segment
use aphros.Segment.{Segment}
use aphros.Segment.Contents.{Holds}
use aphros.Segment.Closing.{Shut, close_lem}
use aphros.Log.{Env, close, close_all}
use aphros.Log.Contents.{at_disk, HoldsAll, Avoids, AllApart, TouchesAll, HoldsAll-kept, IsLog}

pub Shut-kept :
    {k : Codec} {s : Segment} {d d' : Disk} {rs : List Record}
    → d'.node s.store.ino ≡ d.node s.store.ino
    → d'.node s.index.ino ≡ d.node s.index.ino
    → Shut k s d rs
    → Shut k s d' rs
Shut-kept store_same index_same h = record {
  before = h.before;
  holds = h.holds;
  sound = h.sound;
  store_sound = ap (λ f. f.faulty) store_same ∙ h.store_sound;
  store_is = ap (λ f. f.bytes) store_same ∙ h.store_is;
  index_is = index_same ∙ h.index_is;
}

-- The files of each segment as its Close leaves them.
abbrev pub ShutAll : Codec → Disk → List Segment → List (List Record) → Type 0
ShutAll k d [] [] = Unit
ShutAll k d [] (rs ∷ rss) = ⊥
ShutAll k d (s ∷ ss) [] = ⊥
ShutAll k d (s ∷ ss) (rs ∷ rss) = Shut k s d rs × ShutAll k d ss rss

-- No index file is faulty.
abbrev pub AllSound : Disk → List Segment → Type 0
AllSound d [] = Unit
AllSound d (s ∷ ss) = ((d.node s.index.ino).faulty ≡ false) × AllSound d ss

pub AllSound-kept :
    (ss : List Segment) (d d' : Disk)
    → ((l : ℕ) → (d'.node l).faulty ≡ (d.node l).faulty)
    → AllSound d ss
    → AllSound d' ss
AllSound-kept [] d d' same h = tt
AllSound-kept (s ∷ ss) d d' same (h, hs) = (same s.index.ino ∙ h, AllSound-kept ss d d' same hs)

pub TouchesAll-next :
    {s : Segment} {ss : List Segment} {d d₁ d' : Disk}
    → TouchesTwo s.store.ino s.index.ino d d₁
    → TouchesAll ss d₁ d'
    → TouchesAll (s ∷ ss) d d'
TouchesAll-next h hs = record {
  others = λ l (a, b, as_). hs.others l as_ ∙ h.others l (λ p. a (sym p)) (λ p. b (sym p));
  faulty_same = λ l. hs.faulty_same l ∙ h.faulty_same l;
  names_same = hs.names_same ∙ h.names_same;
  fresh_same = hs.fresh_same ∙ h.fresh_same;
  present_same = hs.present_same ∙ h.present_same;
}

pub TouchesAll-trans :
    {ss : List Segment} {a b c : Disk} → TouchesAll ss a b → TouchesAll ss b c → TouchesAll ss a c
TouchesAll-trans h g = record {
  others = λ l avoids. g.others l avoids ∙ h.others l avoids;
  faulty_same = λ l. g.faulty_same l ∙ h.faulty_same l;
  names_same = g.names_same ∙ h.names_same;
  fresh_same = g.fresh_same ∙ h.fresh_same;
  present_same = g.present_same ∙ h.present_same;
}

-- Close of the segments, one after the other, succeeds.
close_all_lem :
    (k : Codec) (ss : List Segment) (rss : List (List Record)) (d : Disk)
    → HoldsAll k d ss rss
    → AllApart ss
    → AllSound d ss
    → (ss' : List Segment) × (d' : Disk) × (close_all ss d ≡ (ok tt, (ss', d')))
      × ShutAll k d' ss rss
      × TouchesAll ss d d'
unfolding close_all
close_all_lem k [] [] d h a sound = (
  [],
  d,
  refl,
  tt,
  record {
    others = λ l _. refl;
    faulty_same = λ l. refl;
    names_same = refl;
    fresh_same = refl;
    present_same = refl;
  },
)
close_all_lem k [] (rs ∷ rss) d h a sound = absurd h
close_all_lem k (s ∷ ss) [] d h a sound = absurd h
close_all_lem k (s ∷ ss) (rs ∷ rss) d (h, hs) (a, b, as_) (sound, sounds) =
    let (t, closes, bytes, index_same, touches, _) = close_lem k (at_disk s d) rs h sound in
    let (ss', d', rest, shuts, more) =
      close_all_lem k ss rss t.disk (HoldsAll-kept k ss rss touches a b hs) as_
        (AllSound-kept ss d t.disk touches.faulty_same sounds) in
    let shut : Shut k s t.disk rs = record {
      before = d;
      holds = h;
      sound = sound;
      store_sound = touches.faulty_same s.store.ino ∙ h.store_ok.healthy.sound;
      store_is = bytes;
      index_is = index_same;
    } in
    (
      t.self ∷ ss',
      d',
      ap
            (λ (x : Result (Unit {0}) × Segment.Env).
              let (r, (rest', d'')) = close_all ss x.1.disk in
              let y : Result (Unit {0}) × (List Segment × Disk) = elim x.0 [
                | ok _ ↦ (r, (x.1.self ∷ rest', d''))
                | err z ↦ (err z, (x.1.self ∷ ss, x.1.disk))
              ] in
              y)
            closes
          ∙ ap (λ (x : Result (Unit {0}) × (List Segment × Disk)). (x.0, (t.self ∷ x.1.0, x.1.1)))
              rest,
      (Shut-kept (more.others s.store.ino a) (more.others s.index.ino b) shut, shuts),
      TouchesAll-next touches more,
    )

-- Close of a sound log succeeds and leaves the files of its segments closed.
pub close-ShutAll :
    (k : Codec) (e : Env) (n : ℕ) (rss : List (List Record))
    → IsLog k e n rss
    → AllSound e.disk e.self.segments
    → (e' : Env) × (close e ≡ (ok tt, e'))
      × ShutAll k e'.disk e.self.segments rss
      × TouchesAll e.self.segments e.disk e'.disk
unfolding close
close-ShutAll k e n rss h sound =
    let (ss', d', runs, shuts, touches) =
      close_all_lem k e.self.segments rss e.disk h.holds h.apart sound in
    (
      record { self = record e.self { segments = ss' }; disk = d' },
      ap
          (λ (x : Result (Unit {0}) × (List Segment × Disk)).
            (x.0, record { self = record e.self { segments = x.1.0 }; disk = x.1.1 }))
          runs,
      shuts,
      touches,
    )
