-- ===== src/Log/Restarting/Durable.antt =====
-- A log of any number of segments that is closed and opened again.
use mathlib.Core.List.{map, append-nil}
use aphros.Base.{
  ℕ, ◌+◌, ◌-◌, ◌*◌, ◌≤◌, ◌^◌, ◌<◌, ◌≡◌, refl, sym, ap, ◌∙◌, subst, true, false, some, List, [], ◌∷◌,
  arith, length, get_elem?,
}
use aphros.Result.{ok, ◌>>◌, >>=-ok}
use aphros.Api.{Record, Codec}
use aphros.Disk.{Disk, FileName}
use aphros.Index.{entry_width}
use aphros.Segment.{Segment, Config, is_maxed}
use aphros.Log.{
  Env, with_defaults, new_log, highest_offset, add_segments, ensure_segment, close, read, last?,
  is_nil,
}
use aphros.Log.Contents.{all_records, TouchesAll, IsLog}
use aphros.Log.Growing.{Last-Last}
use aphros.Log.Appending.{highest_offset_lem}
use aphros.Log.Opening.{read_dir_lem, setup_reads}
use aphros.Log.Reading.{is_boundary}
use aphros.Log.Restarting.{AllSound, AllSound-kept, TouchesAll-trans, close-ShutAll}
use aphros.Log.Restarting.Opening.{Doubled, one_open, AllNamed, AllFit, env_of, doubles, open_all}
use aphros.Log.Restarting.Reading.{Starts, Chained-Starts, read-Doubled}
use aphros.Log.Restarting.Names.{names_of, sorted_names, names_of-AllNamed}

-- The last of the segments that were opened.
pub record LastOpen (m : ℕ) (s : Segment) (ss' : List Segment) (rss : List (List Record))
    : Type 0 where
  pub segment : Segment
  pub last_is : last? ss' ≡ some segment
  pub full : is_maxed segment ≡ true
  pub padded :
      (rs : List Record)
      → last? rss ≡ some rs
      → (length rs + 1) * entry_width ≤ m
      → segment.next_offset ≡ s.base_offset + 1

last-Doubled :
    (k : Codec) (m : ℕ) (d : Disk) (ss ss' : List Segment) (rss : List (List Record)) (s : Segment)
    → Doubled k m d ss ss' rss
    → last? ss ≡ some s
    → LastOpen m s ss' rss
last-Doubled k m d [] ss' rss s h found = cc
last-Doubled k m d (x ∷ []) (x' ∷ (t ∷ [])) (rs ∷ []) s (one_open twice filled rest) found =
    let same : x ≡ s = cc in
    record {
      segment = t;
      last_is = refl;
      full = twice.full;
      padded = λ ts is room.
          let these : rs ≡ ts = cc in
          twice.padded (omega (arith, ap (length {A = Record}) these, room))
          ∙ ap (λ y. y.base_offset + 1) same;
    }
last-Doubled k m d (x ∷ []) (x' ∷ (t ∷ [])) (rs ∷ (u ∷ us)) s (one_open twice filled rest) found =
    elim rest [ ]
last-Doubled k m d (x ∷ []) (x' ∷ (t ∷ (u ∷ us))) (rs ∷ rss) s (one_open twice filled rest) found =
    elim rest [ ]
last-Doubled k m d (x ∷ (y ∷ ys)) (x' ∷ (t ∷ [])) (rs ∷ rss) s (one_open twice filled rest) found =
    elim rest [ ]
last-Doubled k m d (x ∷ (y ∷ ys)) (x' ∷ (t ∷ (u ∷ us))) (rs ∷ []) s (one_open twice filled rest)
      found =
    elim rest [ ]
last-Doubled k m d (x ∷ (y ∷ ys)) (x' ∷ (t ∷ (u ∷ us))) (rs ∷ (ts ∷ rss)) s
      (one_open twice filled rest) found =
    let l = last-Doubled k m d (y ∷ ys) (u ∷ us) (ts ∷ rss) s rest found in
    record { segment = l.segment; last_is = l.last_is; full = l.full; padded = l.padded }
last-Doubled k m d (x ∷ xs) [] rss s h found = elim h [ ]
last-Doubled k m d (x ∷ xs) (x' ∷ []) rss s h found = elim h [ ]
last-Doubled k m d (x ∷ xs) (x' ∷ (t ∷ ts)) [] s h found = elim h [ ]

last-not_nil : (ss : List Segment) (s : Segment) → last? ss ≡ some s → is_nil ss ≡ false
last-not_nil [] s found = cc
last-not_nil (x ∷ ss) s found = refl

pub ensure_nothing :
    (e : Env) (s : Segment) → last? e.self.segments ≡ some s → ensure_segment e ≡ (ok tt, e)
unfolding ensure_segment
ensure_nothing e s found =
    let some_segment = last-not_nil e.self.segments s found in rw some_segment refl

-- A log whose files are the only ones of its directory, none of them faulty; each segment has a
-- record, and its entries fit the limit of an index.
pub record CanRestart (e : Env) (rss : List (List Record)) : Type 0 where
  pub present : e.disk.present ≡ true
  pub named : e.disk.names ≡ names_of e.self.segments
  pub sound : AllSound e.disk e.self.segments
  pub fit : AllFit e.self.config.max_index_bytes rss
  pub small : e.self.config.max_index_bytes < 2 ^ 32

module _ (k : Codec) (e : Env) (n : ℕ) (rss : List (List Record)) (c : Config) (s : Segment)
    (h : IsLog k e n rss) (can : CanRestart e rss) (limits : with_defaults c ≡ e.self.config)
    (found : last? e.self.segments ≡ some s) where
  pub starts : Starts n e.self.segments rss
  starts = Chained-Starts k e.disk n n e.self.segments rss refl h.holds h.chained

  pub index_limit : (with_defaults c).max_index_bytes ≡ e.self.config.max_index_bytes
  index_limit = ap (λ l. l.max_index_bytes) limits

  -- What the log is closed to and opened as.
  pub restart_lem :
      (e₁ : Env) × (ss' : List Segment) × (d' : Disk) × (close e ≡ (ok tt, e₁))
      × (new_log c e₁.disk ≡ (ok tt, env_of (with_defaults c) ss' d'))
      × Doubled k (with_defaults c).max_index_bytes d' e.self.segments ss' rss
      × LastOpen (with_defaults c).max_index_bytes s ss' rss
      × TouchesAll e.self.segments e.disk d'
  unfolding new_log
  restart_lem =
      let ss = e.self.segments in
      let c' = with_defaults c in
      let m = c'.max_index_bytes in
      let (e₁, closes, shuts, touches) = close-ShutAll k e n rss h can.sound in
      let names = touches.names_same ∙ can.named in
      let there = touches.present_same ∙ can.present in
      let fit = subst (λ l. AllFit l rss) (sym index_limit) can.fit in
      let (ss', d', opens, doubled, more) =
        open_all k c' [] ss rss e₁.disk shuts h.apart
          (AllSound-kept ss e.disk e₁.disk touches.faulty_same can.sound)
          (subst (λ l. AllNamed l ss) (sym names) (names_of-AllNamed m n ss rss starts fit)) fit
          there (omega (arith, index_limit, can.small)) in
      let l = last-Doubled k m d' ss ss' rss s doubled found in
      (
        e₁,
        ss',
        d',
        closes,
        setup_reads (env_of c' [] e₁.disk) (map (λ (x : FileName × ℕ). x.0) (names_of ss))
              (read_dir_lem e₁.disk (names_of ss) there names)
            ∙ ap (λ l. (add_segments l >> ensure_segment) (env_of c' [] e₁.disk))
                (sorted_names n ss rss starts)
            ∙ >>=-ok (add_segments (doubles ss)) _ opens
            ∙ ensure_nothing (env_of c' ss' d') l.segment l.last_is,
        doubled,
        l,
        TouchesAll-trans touches more,
      )

  -- A sound log that can be restarted is closed and opened again with the same limits: both succeed, and
  -- Read of every offset that the log held, and at which no segment but the first starts, gives its
  -- record.
  pub restart_reads :
      (i : ℕ) (r : Record)
      → get_elem? (all_records rss) i ≡ some r
      → is_boundary n rss (n + i) ≡ false
      → (e₁ : Env) × (e₂ : Env) × (e₃ : Env) × (close e ≡ (ok tt, e₁))
        × (new_log c e₁.disk ≡ (ok tt, e₂))
        × (read k (n + i) e₂ ≡ (ok r, e₃))
  restart_reads i r has clear =
      let (e₁, ss', d', closes, opens, doubled, _, _) = restart_lem in
      let e₂ = env_of (with_defaults c) ss' d' in
      let (e₃, reads) =
        read-Doubled k (with_defaults c).max_index_bytes n i [] e.self.segments ss' rss r e₂
          (sym (append-nil ss')) doubled starts has clear in
      (e₁, e₂, e₃, closes, opens, reads)

  -- A sound log that can be restarted, and whose last segment has room for one entry more, is closed and
  -- opened again with the same limits: its highest offset was that of its last record, and is now the
  -- offset at which its last segment starts, whatever that segment holds.
  pub restart_highest :
      (rs : List Record)
      → last? rss ≡ some rs
      → (length rs + 1) * entry_width ≤ e.self.config.max_index_bytes
      → (e₁ : Env) × (e₂ : Env) × (close e ≡ (ok tt, e₁))
        × (new_log c e₁.disk ≡ (ok tt, e₂))
        × (highest_offset e ≡ (ok (n + length (all_records rss) - 1), e))
        × (highest_offset e₂ ≡ (ok s.base_offset, e₂))
  restart_highest rs last_rs room =
      let (e₁, ss', d', closes, opens, _, l, _) = restart_lem in
      let e₂ = env_of (with_defaults c) ss' d' in
      let next = l.padded rs last_rs (omega (arith, index_limit, room)) in
      let last = Last-Last k e.disk n e.self.segments rss s h.holds h.chained found in
      (
        e₁,
        e₂,
        closes,
        opens,
        highest_offset_lem e s found ∙ ap (λ m. (ok (m - 1), e)) last.ends,
        highest_offset_lem e₂ l.segment l.last_is ∙ ap (λ m. (ok m, e₂)) (omega (arith, next)),
      )
