-- ===== src/Log/Restarting/Appending.antt =====
-- An Append to a log that was closed and opened again: the log goes on behind the base of its last
-- segment.
use aphros.Base.{
  ℕ, ◌+◌, ◌-◌, ◌*◌, ◌≤◌, ◌<◌, ◌^◌, ◌≡◌, refl, sym, ap, ◌∙◌, subst, none, some, List, [], ◌∷◌, ◌++◌,
  arith, length, get_elem?, u64, true, false,
}
use aphros.Result.{Result, ok, ◌>>=◌, >>=-ok}
use aphros.Api.{Record, Codec}
use aphros.Disk.{Disk, find_name, store_file, index_file}
use aphros.Store.{max_alloc}
use aphros.Index.{entry_width}
use aphros.Segment
use aphros.Segment.{Segment, Config}
use aphros.Segment.Appending.{at_offset, append-Holds}
use aphros.Segment.Creating.{CanCreate, new_segment-create}
use aphros.Log.{
  Env, with_defaults, new_log, highest_offset, get_active, rotate, add_segment, append_active,
  append, close, read, last?, set_last, put_in,
}
use aphros.Log.Contents.{at_disk, all_records, TouchesAll, IsLog}
use aphros.Log.Growing.{Below, last?-snoc}
use aphros.Log.Appending.{highest_offset_lem, get_active_lem, add_segment_lem}
use aphros.Log.Reading.{is_boundary}
use aphros.Log.Restarting.Opening.{Doubled, none_open, one_open, OpenTwice-kept, env_of}
use aphros.Log.Restarting.Reading.{read-Doubled}
use aphros.Log.Restarting.Durable.{CanRestart, starts, index_limit, restart_lem}

set_last-snoc : (ss : List Segment) (s t : Segment) → set_last (ss ++ (s ∷ [])) t ≡ ss ++ (t ∷ [])
set_last-snoc [] s t = refl
set_last-snoc (x ∷ []) s t = refl
set_last-snoc (x ∷ (y ∷ ys)) s t = ap (λ l. x ∷ l) (set_last-snoc (y ∷ ys) s t)

-- What was opened is left by a step that changes no file below a bound.
Doubled-kept :
    {k : Codec} {m : ℕ} (l : ℕ) (d d' : Disk) {ss ss' : List Segment} {rss : List (List Record)}
    → ((i : ℕ) → i < l → d'.node i ≡ d.node i)
    → Doubled k m d ss ss' rss
    → Below l ss
    → Doubled k m d' ss ss' rss
Doubled-kept l d d' same none_open below = none_open
Doubled-kept {k} {m} l d d' same (one_open {s} {s'} {t} {ss} {ss'} {rs} {rss} twice filled rest)
      (a, b, below) =
    one_open (OpenTwice-kept k m s s' t rs d d' (same s.store.ino a) (same s.index.ino b) twice)
      filled (Doubled-kept l d d' same rest below)

-- The disk that reopening leaves allows what the one before did.
CanCreate-kept :
    {base : ℕ} {ss : List Segment} (c c' : Config) (d d' : Disk)
    → c'.max_index_bytes ≡ c.max_index_bytes
    → TouchesAll ss d d'
    → CanCreate base c d
    → CanCreate base c' d'
CanCreate-kept {base} c c' d d' limit touches can = record {
  present = touches.present_same ∙ can.present;
  no_store = ap (λ l. find_name l (store_file base)) touches.names_same ∙ can.no_store;
  no_index = ap (λ l. find_name l (index_file base)) touches.names_same ∙ can.no_index;
  store_sound =
      touches.faulty_same d'.fresh
      ∙ ap (λ l. (d.node l).faulty) touches.fresh_same
      ∙ can.store_sound;
  index_sound =
      touches.faulty_same (d'.fresh + 1)
      ∙ ap (λ l. (d.node (l + 1)).faulty) touches.fresh_same
      ∙ can.index_sound;
  some_room = omega (arith, limit, can.some_room);
  small = omega (arith, limit, can.small);
  no_wrap = can.no_wrap;
}

-- What Append wants of the record, and of the room for a first entry.
pub record CanAppend (k : Codec) (m at : ℕ) (r : Record) (p : List ℕ) : Type 0 where
  pub room : entry_width ≤ m
  pub encodes : k.marshal (at_offset r at) ≡ some p
  pub nonempty : 0 < length p
  pub small : length p ≤ max_alloc
  pub no_wrap : at + 1 < 2 ^ 64

-- An Append to a log whose last segment is full and ends at `at`: it returns `at`, and changes no file
-- that was there.
append_rotating :
    (k : Codec) (c : Config) (at : ℕ) (ss : List Segment) (t : Segment) (r : Record) (p : List ℕ)
    (d : Disk)
    → last? ss ≡ some t
    → Segment.is_maxed t ≡ true
    → t.next_offset ≡ at
    → 0 < at
    → CanCreate at c d
    → CanAppend k c.max_index_bytes at r p
    → (s : Segment) × (d' : Disk) × (append k r (env_of c ss d)
        ≡ (ok at, env_of c (ss ++ (s ∷ [])) d'))
      × ((i : ℕ) → i < d.fresh → d'.node i ≡ d.node i)
unfolding append rotate append_active
append_rotating k c at ss t r p d last_is full next pos creatable can =
    let e = env_of c ss d in
    let (s, d₁, creates, new, created) = new_segment-create k at c d creatable in
    let e₁ = env_of c (ss ++ (s ∷ [])) d₁ in
    let (u, appends, _, keeps) =
      append-Holds k (at_disk s d₁) [] r p new
        (record {
          encodes = ap (λ o. k.marshal (at_offset r o)) created.next_is ∙ can.encodes;
          nonempty = can.nonempty;
          small = can.small;
          store_room = omega (arith, ap (length {A = ℕ}) created.empty_store, can.small);
          no_wrap = omega (arith, created.next_is, can.no_wrap);
        })
        (omega (arith, created.mapped_is, can.room)) in
    let behind : u64 (t.next_offset - 1 + 1) ≡ at = omega (arith, next, pos, can.no_wrap) in
    (
      u.self,
      u.disk,
      >>=-ok highest_offset _ (highest_offset_lem e t last_is)
          ∙ >>=-ok get_active _ (get_active_lem e t refl last_is)
          ∙ rw full (
              ap (λ o. (add_segment o >>= λ _. append_active k r) e) behind
              ∙ >>=-ok (add_segment at) _ (add_segment_lem at e creates)
              ∙ >>=-ok get_active _ (get_active_lem e₁ s refl (last?-snoc ss s))
              ∙ ap
                  (λ (x : Result ℕ × Segment.Env).
                    (x.0, record { self = put_in none e₁.self x.1.self; disk = x.1.disk }))
                  appends
              ∙ ap (λ o. (ok o, env_of c (set_last (ss ++ (s ∷ [])) u.self) u.disk)) created.next_is
              ∙ ap (λ l. (ok at, env_of c l u.disk)) (set_last-snoc ss s u.self)),
      λ i below.
          keeps.touches.others i (λ q. absurd (omega (arith, created.store_ino_is, below, q)))
            (λ q. absurd (omega (arith, created.index_ino_is, below, q)))
          ∙ created.others i below,
    )

module _ (k : Codec) (e : Env) (n : ℕ) (rss : List (List Record)) (c : Config) (s : Segment)
    (h : IsLog k e n rss) (can : CanRestart e rss) (limits : with_defaults c ≡ e.self.config)
    (found : last? e.self.segments ≡ some s) where
  -- A sound log that can be restarted, whose last segment has room for one entry more, is closed and
  -- opened again with the same limits, and a new segment can be created one behind the start of its
  -- last: an Append then returns the offset behind that start, however many records the last segment
  -- has; and Read of every offset that the log held, and at which no segment but the first starts, still
  -- gives its old record, also at the offset that the Append returned.
  pub append_restarted :
      (rs : List Record) (r' : Record) (p : List ℕ) (i : ℕ) (r : Record)
      → last? rss ≡ some rs
      → (length rs + 1) * entry_width ≤ e.self.config.max_index_bytes
      → Below e.disk.fresh e.self.segments
      → CanCreate (s.base_offset + 1) e.self.config e.disk
      → CanAppend k e.self.config.max_index_bytes (s.base_offset + 1) r' p
      → get_elem? (all_records rss) i ≡ some r
      → is_boundary n rss (n + i) ≡ false
      → (e₁ : Env) × (e₂ : Env) × (e₃ : Env) × (e₄ : Env) × (close e ≡ (ok tt, e₁))
        × (new_log c e₁.disk ≡ (ok tt, e₂))
        × (append k r' e₂ ≡ (ok (s.base_offset + 1), e₃))
        × (read k (n + i) e₃ ≡ (ok r, e₄))
  append_restarted rs r' p i r last_rs room below creatable fits has clear =
      let (e₁, ss', d', closes, opens, doubled, l, touches) =
        restart_lem k e n rss c s h can limits found in
      let c' = with_defaults c in
      let limit = index_limit k e n rss c s h can limits found in
      let next = l.padded rs last_rs (omega (arith, limit, room)) in
      let (u, d₃, appends, same) =
        append_rotating k c' (s.base_offset + 1) ss' l.segment r' p d' l.last_is l.full next
          (omega arith) (CanCreate-kept e.self.config c' e.disk d' limit touches creatable)
          (record {
            room = omega (arith, limit, fits.room);
            encodes = fits.encodes;
            nonempty = fits.nonempty;
            small = fits.small;
            no_wrap = fits.no_wrap;
          }) in
      let e₃ = env_of c' (ss' ++ (u ∷ [])) d₃ in
      let kept =
        Doubled-kept d'.fresh d' d₃ same doubled
          (subst (λ m. Below m e.self.segments) (sym touches.fresh_same) below) in
      let (e₄, reads) =
        read-Doubled k c'.max_index_bytes n i (u ∷ []) e.self.segments ss' rss r e₃ refl kept
          (starts k e n rss c s h can limits found) has clear in
      (e₁, env_of c' ss' d', e₃, e₄, closes, opens, appends, reads)
