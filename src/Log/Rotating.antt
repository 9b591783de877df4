-- ===== src/Log/Rotating.antt =====
-- Append to a log whose last segment is full.
use aphros.Base.{
  ℕ, ◌+◌, ◌-◌, ◌^◌, ◌≤◌, ◌<◌, ◌≡◌, refl, sym, ap, ◌∙◌, subst, true, some, none, List, [], ◌∷◌, ◌++◌,
  arith, length, u64,
}
use aphros.Result.{◌>>=◌, ok, >>=-ok}
use aphros.Api.{Record, Codec}
use aphros.Store.{max_alloc}
use aphros.Index.{entry_width}
use aphros.Segment.{Segment, is_maxed}
use aphros.Segment.Appending.{at_offset}
use aphros.Segment.Creating.{CanCreate, new_segment-create}
use aphros.Log.{Env, last?, highest_offset, get_active, rotate, add_segment, append_active, append}
use aphros.Log.Contents.{all_records, IsLog}
use aphros.Log.Growing.{
  Below-snoc, Below, Last-Last, add_last, add_last-snoc, all_records-snoc, last?-snoc, with_new,
}
use aphros.Log.Appending.{highest_offset_lem, get_active_lem, append_active_lem, add_segment_lem}

pub append_rotates_lem :
    (k : Codec) (e : Env) (n : ℕ) (rss : List (List Record)) (s : Segment) (r : Record) (p : List ℕ)
    → IsLog k e n rss
    → Below e.disk.fresh e.self.segments
    → last? e.self.segments ≡ some s
    → is_maxed s ≡ true
    → 0 < n + length (all_records rss)
    → CanCreate (n + length (all_records rss)) e.self.config e.disk
    → entry_width ≤ e.self.config.max_index_bytes
    → n + length (all_records rss) + 1 < 2 ^ 64
    → k.marshal (at_offset r (n + length (all_records rss))) ≡ some p
    → 0 < length p
    → length p ≤ max_alloc
    → (e' : Env) × (append k r e ≡ (ok (n + length (all_records rss)), e'))
      × IsLog k e' n (rss ++ ((at_offset r (n + length (all_records rss)) ∷ []) ∷ []))
      × Below e'.disk.fresh e'.self.segments
      × (e'.self.config ≡ e.self.config)
unfolding append rotate
append_rotates_lem k e n rss s r p h below found full pos can room wraps encodes nonempty small =
    let m = n + length (all_records rss) in
    let l = Last-Last k e.disk n e.self.segments rss s h.holds h.chained found in
    let (s', d', creates, new, made) = new_segment-create k m e.self.config e.disk can in
    let ss' = e.self.segments ++ (s' ∷ []) in
    let e₁ : Env = record { self = record e.self { segments = ss'; active = none }; disk = d' } in
    let rss' = rss ++ ([] ∷ []) in
    let (holds', chained', apart') =
      with_new k n e.disk.fresh e.self.segments rss s' e.disk d' h.holds h.chained h.apart below
        made.others (omega (arith, made.store_ino_is)) (omega (arith, made.index_ino_is))
        made.base_is new in
    let same = all_records-snoc rss in
    let behind : u64 (s.next_offset - 1 + 1) ≡ m = omega (arith, l.ends, pos, wraps) in
    let (e₂, runs, holds₂, keeps) =
      append_active_lem k e₁ n rss' s' r p
        (record { holds = holds'; chained = chained'; apart = apart'; attached = refl })
        (last?-snoc e.self.segments s')
        (record {
          encodes = ap (λ o. k.marshal (at_offset r o)) made.next_is ∙ encodes;
          nonempty = nonempty;
          small = small;
          store_room = omega (arith, ap (length {A = ℕ}) made.empty_store, small);
          no_wrap = omega (arith, made.next_is, wraps);
        })
        (omega (arith, new.index_ok.sized, made.mapped_is, room)) in
    (
      e₂,
      >>=-ok highest_offset _ (highest_offset_lem e s found)
          ∙ >>=-ok get_active _ (get_active_lem e s h.attached found)
          ∙ rw full (
              ap (λ o. (add_segment o >>= λ _. append_active k r) e) behind
              ∙ >>=-ok (add_segment m) _ (add_segment_lem m e creates)
              ∙ runs
              ∙ ap (λ o. (ok (n + length o), e₂)) same),
      subst (λ q. IsLog k e₂ n q)
          (ap (λ o. add_last rss' (at_offset r (n + length o))) same
            ∙ add_last-snoc rss (at_offset r m))
          holds₂,
      subst (λ m. Below m e₂.self.segments) (sym keeps.fresh_same)
          (keeps.below d'.fresh (
            Below-snoc e.disk.fresh d'.fresh e.self.segments s' below (omega (arith, made.fresh_is))
              (omega (arith, made.fresh_is, made.store_ino_is))
              (omega (arith, made.fresh_is, made.index_ino_is)))),
      keeps.config_same,
    )

-- Append, once the last segment is full: where a segment can be created behind the last offset, the
-- record goes there. The append returns the offset behind the last, and the log holds the record,
-- alone in the new segment, behind those that it held.
pub append-rotates :
    (k : Codec) (e : Env) (n : ℕ) (rss : List (List Record)) (s : Segment) (r : Record) (p : List ℕ)
    → IsLog k e n rss
    → Below e.disk.fresh e.self.segments
    → last? e.self.segments ≡ some s
    → is_maxed s ≡ true
    → 0 < n + length (all_records rss)
    → CanCreate (n + length (all_records rss)) e.self.config e.disk
    → entry_width ≤ e.self.config.max_index_bytes
    → n + length (all_records rss) + 1 < 2 ^ 64
    → k.marshal (at_offset r (n + length (all_records rss))) ≡ some p
    → 0 < length p
    → length p ≤ max_alloc
    → (e' : Env) × (append k r e ≡ (ok (n + length (all_records rss)), e'))
      × IsLog k e' n (rss ++ ((at_offset r (n + length (all_records rss)) ∷ []) ∷ []))
append-rotates k e n rss s r p h below found full pos can room wraps encodes nonempty small =
    let (e', runs, holds, _, _) =
      append_rotates_lem k e n rss s r p h below found full pos can room wraps encodes nonempty
        small in
    (e', runs, holds)
