-- ===== src/Log/Appending.antt =====
-- Append to a log whose last segment has room.
use aphros.Base.{
  ℕ, ◌+◌, ◌-◌, ◌≤◌, ◌≡◌, refl, ap, ◌∙◌, subst, false, some, none, List, [], ◌∷◌, ◌++◌, arith,
  length,
}
use aphros.Result.{Result, ok, >>=-ok}
use aphros.Api.{Record, Codec}
use aphros.Disk.{Disk}
use aphros.Index.{entry_width}
use aphros.Segment
use aphros.Segment.{Segment, is_maxed}
use aphros.Segment.Appending.{Fits, at_offset, append-Holds, room_of_open}
use aphros.Log.{
  Env, last?, set_last, highest_offset, or_panic, on_disk, get_active, put_in, active_in, rotate,
  add_segment, append_active, append,
}
use aphros.Log.Contents.{at_disk, HoldsAll, all_records, IsLog}
use aphros.Log.Growing.{Below-set_last, Below, Last-Last, add_last, grown_last}

-- The highest offset, for a log with a segment.
pub highest_offset_lem :
    (e : Env) (s : Segment)
    → last? e.self.segments ≡ some s
    → highest_offset e ≡ (ok (s.next_offset - 1), e)
unfolding highest_offset
highest_offset_lem e s found = rw found (ground arith)

pub get_active_lem :
    (e : Env) (s : Segment)
    → e.self.active ≡ none
    → last? e.self.segments ≡ some s
    → get_active e ≡ (ok s, e)
unfolding get_active
get_active_lem e s attached found =
    ap (λ o. (or_panic (active_in o e.self.segments), e)) attached ∙ ap (λ o. (or_panic o, e)) found

-- The log's segments use files below a bound that they used files below before.
pub record KeepsBelow (e e' : Env) : Type 0 where
  pub fresh_same : e'.disk.fresh ≡ e.disk.fresh
  pub config_same : e'.self.config ≡ e.self.config
  pub below : (m : ℕ) → Below m e.self.segments → Below m e'.self.segments

-- The append to the active segment, which is the last.
pub append_active_lem :
    (k : Codec) (e : Env) (n : ℕ) (rss : List (List Record)) (s : Segment) (r : Record) (p : List ℕ)
    → IsLog k e n rss
    → last? e.self.segments ≡ some s
    → Fits k (at_disk s e.disk) r p
    → s.index.size + entry_width ≤ s.index.mapped
    → (e' : Env) × (append_active k r e ≡ (ok (n + length (all_records rss)), e'))
      × IsLog k e' n (add_last rss (at_offset r (n + length (all_records rss))))
      × KeepsBelow e e'
unfolding append_active
append_active_lem k e n rss s r p h found fits room =
    let l = Last-Last k e.disk n e.self.segments rss s h.holds h.chained found in
    let (t, runs, holds, keeps) =
      append-Holds k (at_disk s e.disk) l.records r p l.holds fits
        (omega (arith, room, l.holds.index_ok.sized)) in
    let (holds', chained', apart') =
      grown_last k n e.self.segments rss s t.self e.disk t.disk l.records
        (at_offset r s.next_offset) h.holds h.chained h.apart found l.last_records holds keeps in
    (
      record { self = record e.self { segments = set_last e.self.segments t.self }; disk = t.disk },
      >>=-ok get_active _ (get_active_lem e s h.attached found)
          ∙ ap
              (λ (x : Result ℕ × Segment.Env).
                (x.0, record { self = put_in e.self.active e.self x.1.self; disk = x.1.disk }))
              runs
          ∙ ap (λ o. (ok s.next_offset, record { self = put_in o e.self t.self; disk = t.disk }))
              h.attached
          ∙ ap
              (λ m. (
                ok m,
                record {
                  self = record e.self { segments = set_last e.self.segments t.self };
                  disk = t.disk;
                },
              ))
              l.ends,
      record {
        holds =
            subst
              (λ m.
                HoldsAll k t.disk (set_last e.self.segments t.self) (add_last rss (at_offset r m)))
              l.ends holds';
        chained = chained';
        apart = apart';
        attached = h.attached;
      },
      record {
        fresh_same = keeps.touches.fresh_same;
        config_same = refl;
        below = λ m b.
            Below-set_last m e.self.segments s t.self b found keeps.store_ino_same
              keeps.index_ino_same;
      },
    )

pub append_last_lem :
    (k : Codec) (e : Env) (n : ℕ) (rss : List (List Record)) (s : Segment) (r : Record) (p : List ℕ)
    → IsLog k e n rss
    → last? e.self.segments ≡ some s
    → Fits k (at_disk s e.disk) r p
    → is_maxed s ≡ false
    → (e' : Env) × (append k r e ≡ (ok (n + length (all_records rss)), e'))
      × IsLog k e' n (add_last rss (at_offset r (n + length (all_records rss))))
      × KeepsBelow e e'
unfolding append rotate
append_last_lem k e n rss s r p h found fits open_ =
    let l = Last-Last k e.disk n e.self.segments rss s h.holds h.chained found in
    let (e', runs, holds, keeps) =
      append_active_lem k e n rss s r p h found fits
        (room_of_open k (at_disk s e.disk) l.records l.holds open_) in
    (
      e',
      >>=-ok highest_offset _ (highest_offset_lem e s found)
          ∙ >>=-ok get_active _ (get_active_lem e s h.attached found)
          ∙ rw open_ runs,
      holds,
      keeps,
    )

-- Append, while the last segment is not full, of a record that fits: it returns the offset behind
-- the last, and the log holds the record, with that offset, behind those that it held.
pub append-last :
    (k : Codec) (e : Env) (n : ℕ) (rss : List (List Record)) (s : Segment) (r : Record) (p : List ℕ)
    → IsLog k e n rss
    → last? e.self.segments ≡ some s
    → Fits k (at_disk s e.disk) r p
    → is_maxed s ≡ false
    → (e' : Env) × (append k r e ≡ (ok (n + length (all_records rss)), e'))
      × IsLog k e' n (add_last rss (at_offset r (n + length (all_records rss))))
append-last k e n rss s r p h found fits open_ =
    let (e', runs, holds, _) = append_last_lem k e n rss s r p h found fits open_ in
    (e', runs, holds)

pub add_segment_lem :
    (off : ℕ) (e : Env) {s : Segment} {d : Disk}
    → Segment.new_segment off e.self.config e.disk ≡ (ok s, d)
    → add_segment off e ≡ (
      ok tt,
      record {
        self = record e.self { segments = e.self.segments ++ (s ∷ []); active = none };
        disk = d;
      },
    )
unfolding add_segment
add_segment_lem off e {s} {d} runs =
    >>=-ok (on_disk (Segment.new_segment off e.self.config)) _
      (ap (λ (x : Result Segment × Disk). (x.0, record { self = e.self; disk = x.1 })) runs)
