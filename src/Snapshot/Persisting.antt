-- ===== src/Snapshot/Persisting.antt =====
-- What Persist writes of a log that is sound.
use mathlib.Core.List.{append_assoc, append-nil}
use aphros.Base.{ℕ, ◌≡◌, refl, sym, ap, ◌∙◌, subst, List, [], ◌∷◌, ◌++◌}
use aphros.Result.{Result, ok, err}
use aphros.Api.{Record, Codec}
use aphros.Disk.{Disk}
use aphros.Disk.Frame.{Touches, Touches-first}
use aphros.Store.Records.{content-kept}
use aphros.Segment.{Segment}
use aphros.Segment.Contents.{Holds-kept, store_bytes}
use aphros.Log
use aphros.Log.Contents.{
  at_disk, HoldsAll, HoldsAll-kept, Avoids, AllApart, AllApart-same, Chained-same, SameShapes,
  IsLog,
}
use aphros.Snapshot.{Sink, Env, copy_segments, finish, persist}
use aphros.Snapshot.Copying.{Collects, copy_segment_lem}

-- The bytes of the stores, one behind the other.
abbrev pub contents : List Segment → Disk → List ℕ
contents [] d = []
contents (g ∷ rest) d = store_bytes (at_disk g d) ++ contents rest d

contents-kept :
    (ss : List Segment) {i : ℕ} {d d' : Disk}
    → Touches i d d'
    → Avoids i ss
    → contents ss d' ≡ contents ss d
contents-kept [] t a = refl
contents-kept (g ∷ ss) {d = d} {d' = d'} t (a, _, as_) =
    ap (λ b. b ++ contents ss d') (content-kept g.store d d' (t.others g.store.ino a))
    ∙ ap (λ b. store_bytes (at_disk g d) ++ b) (contents-kept ss t as_)

-- The segments that a copy leaves, on the disk that it leaves.
pub record Copied {S : Type 0} (k : Codec) (sink : Sink S) (law : Collects sink) (ss : List Segment)
    (rss : List (List Record)) (d : Disk) (s : S) : Type 0 where
  pub segments : List Segment
  pub disk : Disk
  pub sunk : S
  pub runs : copy_segments sink ss d s ≡ (ok tt, (segments, (disk, sunk)))
  pub wrote : law.written sunk ≡ law.written s ++ contents ss d
  pub holds : HoldsAll k disk segments rss
  pub shapes : SameShapes ss segments
  pub others : (l : ℕ) → Avoids l ss → disk.node l ≡ d.node l

module _ {S : Type 0} (k : Codec) (sink : Sink S) (law : Collects sink) where
  copy_segments_lem :
      (ss : List Segment) (rss : List (List Record)) (d : Disk) (s : S)
      → HoldsAll k d ss rss
      → AllApart ss
      → Copied k sink law ss rss d s
  unfolding copy_segments
  copy_segments_lem [] [] d s h apart = record {
    segments = [];
    disk = d;
    sunk = s;
    runs = refl;
    wrote = sym (append-nil _);
    holds = tt;
    shapes = tt;
    others = λ l a. refl;
  }
  copy_segments_lem [] (rs ∷ rss) d s h apart = absurd h
  copy_segments_lem (g ∷ ss) [] d s h apart = absurd h
  copy_segments_lem (g ∷ ss) (rs ∷ rss) d s (h, hs) (a, b, as_) =
      let (t, s₁, copies, wrote, holds, touches, ino) = copy_segment_lem sink law k g rs d s h in
      let g' : Segment = record g { store = t.self } in
      let rest =
        copy_segments_lem ss rss t.disk s₁
          (HoldsAll-kept k ss rss (Touches-first g.index.ino touches) a b hs) as_ in
      record {
        segments = g' ∷ rest.segments;
        disk = rest.disk;
        sunk = rest.sunk;
        runs =
            ap
              (λ (x : Result (Unit {0}) × Env S).
                let (r', (rest', end)) = copy_segments sink ss x.1.from.disk x.1.to in
                let y : Result (Unit {0}) × (List Segment × (Disk × S)) = elim x.0 [
                  | ok _ ↦ (r', (record g { store = x.1.from.self } ∷ rest', end))
                  | err z ↦
                      (err z, (record g { store = x.1.from.self } ∷ ss, (x.1.from.disk, x.1.to)))
                ] in
                y)
              copies
            ∙ ap
                (λ (x : Result (Unit {0}) × (List Segment × (Disk × S))).
                  (x.0, (g' ∷ x.1.0, x.1.1)))
                rest.runs;
        wrote =
            rest.wrote
            ∙ ap (λ w. w ++ contents ss t.disk) wrote
            ∙ append_assoc (law.written s) (store_bytes (at_disk g d)) (contents ss t.disk)
            ∙ ap (λ b. law.written s ++ (store_bytes (at_disk g d) ++ b))
                (contents-kept ss touches a);
        holds = (
          Holds-kept k g' rs t.disk rest.disk
              (rest.others t.self.ino (subst (λ i. Avoids i ss) (sym ino) a))
              (rest.others g.index.ino b) holds,
          rest.holds,
        );
        shapes = (
          record {
            base_same = refl;
            next_same = refl;
            store_ino_same = ino;
            index_ino_same = refl;
            mapped_same = refl;
            config_same = refl;
          },
          rest.shapes,
        );
        others = λ l (p, q, ps). rest.others l ps ∙ touches.others l (λ o. p (sym o));
      }

-- Persist of a sound log succeeds where the sink keeps what it is given: behind what the sink had, it
-- has the bytes of the log's stores, those that were buffered included, in the order of the segments,
-- and the log holds the same records.
pub persist-IsLog :
    {S : Type 0} (k : Codec) (sink : Sink S) (law : Collects sink) (n : ℕ)
    (rss : List (List Record)) (e : Log.Env) (s : S)
    → IsLog k e n rss
    → (e' : Log.Env) × (s' : S) × (persist sink (e, s) ≡ (ok tt, (e', s')))
      × (law.written s' ≡ law.written s ++ contents e.self.segments e.disk)
      × IsLog k e' n rss
unfolding persist finish
persist-IsLog {S} k sink law n rss e s h =
    let c = copy_segments_lem k sink law e.self.segments rss e.disk s h.holds h.apart in
    let (s', closes, kept) = law.closes c.sunk in
    let left : Log.Env = record { self = record e.self { segments = c.segments }; disk = c.disk } in
    (
      left,
      s',
      ap
            (λ (x : Result (Unit {0}) × (List Segment × (Disk × S))).
              let (r', s'') = finish sink x.0 x.1.1.1 in
              (r', (record { self = record e.self { segments = x.1.0 }; disk = x.1.1.0 }, s'')))
            c.runs
          ∙ ap (λ (x : Result (Unit {0}) × S). (x.0, (left, x.1))) closes,
      kept ∙ c.wrote,
      record {
        holds = c.holds;
        chained = Chained-same n e.self.segments c.segments c.shapes h.chained;
        apart = AllApart-same e.self.segments c.segments c.shapes h.apart;
        attached = h.attached;
      },
    )
