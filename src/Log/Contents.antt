-- ===== src/Log/Contents.antt =====
-- What a log holds: a list of records for each segment, the offsets of each following on.
use aphros.Base.{ℕ, ◌≡◌, ◌≢◌, refl, sym, ◌∙◌, subst, none, List, [], ◌∷◌, ◌++◌}
use aphros.Api.{Record, Codec}
use aphros.Disk.{Disk}
use aphros.Disk.Frame.{TouchesTwo}
use aphros.Segment
use aphros.Segment.{Segment, Config}
use aphros.Segment.Contents.{Holds, Holds-kept}
use aphros.Log.{Env}

abbrev pub at_disk : Segment → Disk → Segment.Env
at_disk s d = record { self = s; disk = d }

-- Each segment holds its list of records.
abbrev pub HoldsAll : Codec → Disk → List Segment → List (List Record) → Type 0
HoldsAll k d [] [] = Unit
HoldsAll k d [] (rs ∷ rss) = ⊥
HoldsAll k d (s ∷ ss) [] = ⊥
HoldsAll k d (s ∷ ss) (rs ∷ rss) = Holds k (at_disk s d) rs × HoldsAll k d ss rss

-- The first segment starts at `n`, and each other where the one before it ends.
abbrev pub Chained : ℕ → List Segment → Type 0
Chained n [] = Unit
Chained n (s ∷ ss) = (s.base_offset ≡ n) × Chained s.next_offset ss

-- None of the segments uses the file `i`.
abbrev pub Avoids : ℕ → List Segment → Type 0
Avoids i [] = Unit
Avoids i (s ∷ ss) = (i ≢ s.store.ino) × (i ≢ s.index.ino) × Avoids i ss

-- No two segments share a file.
abbrev pub AllApart : List Segment → Type 0
AllApart [] = Unit
AllApart (s ∷ ss) = Avoids s.store.ino ss × Avoids s.index.ino ss × AllApart ss

-- The two lists of segments differ in what is buffered alone.
pub record SameShape (s s' : Segment) : Type 0 where
  pub base_same : s'.base_offset ≡ s.base_offset
  pub next_same : s'.next_offset ≡ s.next_offset
  pub store_ino_same : s'.store.ino ≡ s.store.ino
  pub index_ino_same : s'.index.ino ≡ s.index.ino
  pub mapped_same : s'.index.mapped ≡ s.index.mapped
  pub config_same : s'.config ≡ s.config

abbrev pub SameShapes : List Segment → List Segment → Type 0
SameShapes [] [] = Unit
SameShapes [] (s ∷ ss) = ⊥
SameShapes (s ∷ ss) [] = ⊥
SameShapes (s ∷ ss) (s' ∷ ss') = SameShape s s' × SameShapes ss ss'

pub SameShape-refl : (s : Segment) → SameShape s s
SameShape-refl s = record {
  base_same = refl;
  next_same = refl;
  store_ino_same = refl;
  index_ino_same = refl;
  mapped_same = refl;
  config_same = refl;
}

pub SameShapes-refl : (ss : List Segment) → SameShapes ss ss
SameShapes-refl [] = tt
SameShapes-refl (s ∷ ss) = (SameShape-refl s, SameShapes-refl ss)

pub Chained-same :
    (n : ℕ) (ss ss' : List Segment) → SameShapes ss ss' → Chained n ss → Chained n ss'
Chained-same n [] [] h c = tt
Chained-same n [] (s ∷ ss) h c = absurd h
Chained-same n (s ∷ ss) [] h c = absurd h
Chained-same n (s ∷ ss) (s' ∷ ss') (h, hs) (c, cs) = (
  h.base_same ∙ c,
  subst (λ m. Chained m ss') (sym h.next_same) (Chained-same s.next_offset ss ss' hs cs),
)

pub Avoids-same : (i : ℕ) (ss ss' : List Segment) → SameShapes ss ss' → Avoids i ss → Avoids i ss'
Avoids-same i [] [] h a = tt
Avoids-same i [] (s ∷ ss) h a = absurd h
Avoids-same i (s ∷ ss) [] h a = absurd h
Avoids-same i (s ∷ ss) (s' ∷ ss') (h, hs) (a, b, as_) =
    (λ p. a (p ∙ h.store_ino_same), λ p. b (p ∙ h.index_ino_same), Avoids-same i ss ss' hs as_)

pub AllApart-same : (ss ss' : List Segment) → SameShapes ss ss' → AllApart ss → AllApart ss'
AllApart-same [] [] h a = tt
AllApart-same [] (s ∷ ss) h a = absurd h
AllApart-same (s ∷ ss) [] h a = absurd h
AllApart-same (s ∷ ss) (s' ∷ ss') (h, hs) (a, b, as_) = (
  subst (λ i. Avoids i ss') (sym h.store_ino_same) (Avoids-same s.store.ino ss ss' hs a),
  subst (λ i. Avoids i ss') (sym h.index_ino_same) (Avoids-same s.index.ino ss ss' hs b),
  AllApart-same ss ss' hs as_,
)

-- Only the bytes of the segments' files differ.
pub record TouchesAll (ss : List Segment) (d d' : Disk) : Type 0 where
  pub others : (l : ℕ) → Avoids l ss → d'.node l ≡ d.node l
  pub faulty_same : (l : ℕ) → (d'.node l).faulty ≡ (d.node l).faulty
  pub names_same : d'.names ≡ d.names
  pub fresh_same : d'.fresh ≡ d.fresh
  pub present_same : d'.present ≡ d.present

pub TouchesAll-here :
    {s : Segment} {d d' : Disk} (ss : List Segment)
    → TouchesTwo s.store.ino s.index.ino d d'
    → TouchesAll (s ∷ ss) d d'
TouchesAll-here ss h = record {
  others = λ l (a, b, _). h.others l (λ p. a (sym p)) (λ p. b (sym p));
  faulty_same = h.faulty_same;
  names_same = h.names_same;
  fresh_same = h.fresh_same;
  present_same = h.present_same;
}

pub TouchesAll-later :
    (s : Segment) {ss : List Segment} {d d' : Disk} → TouchesAll ss d d' → TouchesAll (s ∷ ss) d d'
TouchesAll-later s h = record {
  others = λ l (_, _, as_). h.others l as_;
  faulty_same = h.faulty_same;
  names_same = h.names_same;
  fresh_same = h.fresh_same;
  present_same = h.present_same;
}

-- Segments hold what they held where the files that they use are the same.
pub HoldsAll-others :
    (k : Codec) (ss : List Segment) (rss : List (List Record)) {i j : ℕ} (d d' : Disk)
    → ((l : ℕ) → i ≢ l → j ≢ l → d'.node l ≡ d.node l)
    → Avoids i ss
    → Avoids j ss
    → HoldsAll k d ss rss
    → HoldsAll k d' ss rss
HoldsAll-others k [] [] d d' t a b h = tt
HoldsAll-others k [] (rs ∷ rss) d d' t a b h = absurd h
HoldsAll-others k (s ∷ ss) [] d d' t a b h = absurd h
HoldsAll-others k (s ∷ ss) (rs ∷ rss) d d' t (a₁, a₂, as_) (b₁, b₂, bs) (h, hs) = (
  Holds-kept k s rs d d' (t s.store.ino a₁ b₁) (t s.index.ino a₂ b₂) h,
  HoldsAll-others k ss rss d d' t as_ bs hs,
)

pub HoldsAll-kept :
    (k : Codec) (ss : List Segment) (rss : List (List Record)) {i j : ℕ} {d d' : Disk}
    → TouchesTwo i j d d'
    → Avoids i ss
    → Avoids j ss
    → HoldsAll k d ss rss
    → HoldsAll k d' ss rss
HoldsAll-kept k ss rss {d = d} {d' = d'} t a b h = HoldsAll-others k ss rss d d' t.others a b h

-- All the records, in the order of their offsets.
abbrev pub all_records : List (List Record) → List Record
all_records [] = []
all_records (rs ∷ rss) = rs ++ all_records rss

-- A log whose records start at the offset `n`.
pub record IsLog (k : Codec) (e : Env) (n : ℕ) (rss : List (List Record)) : Type 0 where
  pub holds : HoldsAll k e.disk e.self.segments rss
  pub chained : Chained n e.self.segments
  pub apart : AllApart e.self.segments
  pub attached : e.self.active ≡ none
