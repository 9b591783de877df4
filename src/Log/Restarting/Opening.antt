-- ===== src/Log/Restarting/Opening.antt =====
-- The segments of a closed log opened again, each of them twice, as setup does.
use mathlib.Core.List.{append_assoc, append-nil}
use aphros.Base.{
  ℕ, ◌+◌, ◌*◌, ◌^◌, ◌≤◌, ◌<◌, ◌≡◌, refl, sym, ap, ◌∙◌, subst, true, false, none, some, List, [],
  ◌∷◌, ◌++◌, arith, length, get_elem?-some, leb, leb→≤, leb→>, Bool-cases, inl, inr, ◌-◌,
}
use aphros.Result.{ok, >>=-ok}
use aphros.Api.{Record, Codec}
use aphros.Disk.{Disk, FileName, store_file, index_file, find_name}
use aphros.Disk.Frame.{TouchesTwo, Touches-second}
use aphros.Index.{entry_width}
use aphros.Index.Reopen.{length-close}
use aphros.Segment.{Segment, Config, index_env, is_maxed}
use aphros.Segment.Contents.{Holds, Holds-kept, Holds-same}
use aphros.Segment.Closing.{Shut, new_segment-Shut}
use aphros.Segment.Reopening.{MadeTwice, new_segment_twice}
use aphros.Segment.Reopening.Next.{padded_next, full_next}
use aphros.Index.Entries.{HasEntry}
use aphros.Log.{Env, add_segment, add_segments}
use aphros.Log.Appending.{add_segment_lem}
use aphros.Log.Contents.{at_disk, Avoids, AllApart, TouchesAll}
use aphros.Log.Restarting.{ShutAll, Shut-kept, AllSound, AllSound-kept, TouchesAll-next}

-- The directory has the files of each segment under its names.
abbrev pub AllNamed : List (FileName × ℕ) → List Segment → Type 0
AllNamed names [] = Unit
AllNamed names (s ∷ ss) =
    (find_name names (store_file s.base_offset) ≡ some s.store.ino)
    × (find_name names (index_file s.base_offset) ≡ some s.index.ino)
    × AllNamed names ss

-- Each segment has a record, and its entries fit the limit of an index.
abbrev pub AllFit : ℕ → List (List Record) → Type 0
AllFit m [] = Unit
AllFit m (rs ∷ rss) = (0 < length rs) × (length rs * entry_width ≤ m) × AllFit m rss

abbrev pub doubles : List Segment → List ℕ
doubles [] = []
doubles (s ∷ ss) = s.base_offset ∷ s.base_offset ∷ doubles ss

-- A segment that was opened twice, `m` bytes being the limit of its index: first it holds what it held;
-- the second time it is full, and ends at or before its end, and behind its base if there was room for
-- one entry more.
pub record OpenTwice (k : Codec) (m : ℕ) (d : Disk) (s s' t : Segment) (rs : List Record)
    : Type 0 where
  pub holds : Holds k (at_disk s' d) rs
  pub base_is : s'.base_offset ≡ s.base_offset
  pub store_ino_is : s'.store.ino ≡ s.store.ino
  pub index_ino_is : s'.index.ino ≡ s.index.ino
  pub full : is_maxed t ≡ true
  pub behind : t.next_offset ≤ s.base_offset + length rs
  pub padded : (length rs + 1) * entry_width ≤ m → t.next_offset ≡ s.base_offset + 1

pub data Doubled (k : Codec) (m : ℕ) (d : Disk)
    : List Segment → List Segment → List (List Record) → Type 0 where
  none_open : Doubled k m d [] [] []
  one_open :
      {s s' t : Segment} {ss ss' : List Segment} {rs : List Record} {rss : List (List Record)}
      → OpenTwice k m d s s' t rs
      → 0 < length rs
      → Doubled k m d ss ss' rss
      → Doubled k m d (s ∷ ss) (s' ∷ (t ∷ ss')) (rs ∷ rss)

abbrev pub env_of : Config → List Segment → Disk → Env
env_of c ss d = record { self = record { config = c; segments = ss; active = none }; disk = d }

ShutAll-kept :
    (k : Codec) (ss : List Segment) (rss : List (List Record)) (i j : ℕ) (d d' : Disk)
    → TouchesTwo i j d d'
    → Avoids i ss
    → Avoids j ss
    → ShutAll k d ss rss
    → ShutAll k d' ss rss
ShutAll-kept k [] [] i j d d' t a b h = tt
ShutAll-kept k [] (rs ∷ rss) i j d d' t a b h = absurd h
ShutAll-kept k (s ∷ ss) [] i j d d' t a b h = absurd h
ShutAll-kept k (s ∷ ss) (rs ∷ rss) i j d d' t (a₁, a₂, as_) (b₁, b₂, bs) (h, hs) = (
  Shut-kept (t.others s.store.ino a₁ b₁) (t.others s.index.ino a₂ b₂) h,
  ShutAll-kept k ss rss i j d d' t as_ bs hs,
)

-- Where the entries take up the index, the second segment ends where the first one does.
full_behind :
    (k : Codec) (c : Config) (s s' t : Segment) (rs : List Record) (d d₁ d₂ : Disk)
    → MadeTwice s.base_offset s.store.ino s.index.ino c d s' d₁ t d₂
    → Holds k (at_disk s' d₂) rs
    → 0 < length rs
    → length rs * entry_width ≤ c.max_index_bytes
    → c.max_index_bytes < (length rs + 1) * entry_width
    → c.max_index_bytes < 2 ^ 32
    → t.next_offset ≤ s.base_offset + length rs
full_behind k c s s' t rs d d₁ d₂ made h filled fits full small =
    let i = length rs - 1 in
    let (r, found) = get_elem?-some rs i (omega arith) in
    let was = h.stored i r found in
    let next =
      full_next i was.position made (omega arith)
        (subst (λ l. HasEntry (d₂.node l).bytes i i was.position) made.index_ino_is was.entry)
        (omega (arith, was.at.within, h.bounded)) small
        (omega (arith, h.no_wrap, made.base_is, filled)) in
    omega (arith, next, filled)

-- One segment.
open_one :
    (k : Codec) (c : Config) (s : Segment) (rs : List Record) (d : Disk)
    → Shut k s d rs
    → (d.node s.index.ino).faulty ≡ false
    → d.present ≡ true
    → find_name d.names (store_file s.base_offset) ≡ some s.store.ino
    → find_name d.names (index_file s.base_offset) ≡ some s.index.ino
    → 0 < length rs
    → length rs * entry_width ≤ c.max_index_bytes
    → c.max_index_bytes < 2 ^ 32
    → (s' : Segment) × (d₁ : Disk) × (t : Segment) × (d₂ : Disk) × MadeTwice s.base_offset
        s.store.ino s.index.ino c d s' d₁ t d₂
      × OpenTwice k c.max_index_bytes d₂ s s' t rs
open_one k c s rs d shut sound there named named' filled fits small =
    let h = shut.holds in
    let cut : length (d.node s.index.ino).bytes ≡ length rs * entry_width =
      ap (λ f. length {A = ℕ} f.bytes) shut.index_is
      ∙ length-close (index_env (at_disk s shut.before)) h.index_ok.is_open shut.sound
      ∙ h.index_ok.sized in
    let (s', d₁, t, d₂, made) =
      new_segment_twice s.base_offset s.store.ino s.index.ino c d there named named' h.apart
        shut.store_sound sound (omega (arith, cut, fits)) (omega (arith, filled, fits)) small in
    let (s'', d'', opens, holds) = new_segment-Shut k s d rs c shut (record {
      present = there;
      store_named = named;
      index_named = named';
      index_sound = sound;
      room = fits;
      some_room = omega (arith, filled, fits);
      small = small;
    }) in
    let here : Holds k (at_disk s' d₂) rs =
      Holds-kept k s' rs d₁ d₂ (made.nodes s'.store.ino) (made.nodes s'.index.ino)
        (Holds-same (sym opens ∙ made.makes) holds) in
    let pads : (length rs + 1) * entry_width ≤ c.max_index_bytes
        → t.next_offset ≡ s.base_offset + 1 =
      λ room.
        padded_next made (omega (arith, cut, room)) small (omega (arith, h.no_wrap, filled)) in
    (
      s',
      d₁,
      t,
      d₂,
      made,
      record {
        holds = here;
        base_is = made.base_is;
        store_ino_is = made.store_ino_is;
        index_ino_is = made.index_ino_is;
        full = made.full;
        behind = elim (Bool-cases (leb ((length rs + 1) * entry_width) c.max_index_bytes)) [
          | inl room ↦ omega (arith, pads (leb→≤ _ _ room), filled)
          | inr full ↦
              full_behind k c s s' t rs d d₁ d₂ made here filled fits (leb→> _ _ full) small
        ];
        padded = pads;
      },
    )

-- What was opened is left where its files are the same.
pub OpenTwice-kept :
    (k : Codec) (m : ℕ) (s s' t : Segment) (rs : List Record) (d d' : Disk)
    → d'.node s.store.ino ≡ d.node s.store.ino
    → d'.node s.index.ino ≡ d.node s.index.ino
    → OpenTwice k m d s s' t rs
    → OpenTwice k m d' s s' t rs
OpenTwice-kept k m s s' t rs d d' store_same index_same h = record {
  holds =
      Holds-kept k s' rs d d' (subst (λ l. d'.node l ≡ d.node l) (sym h.store_ino_is) store_same)
        (subst (λ l. d'.node l ≡ d.node l) (sym h.index_ino_is) index_same) h.holds;
  base_is = h.base_is;
  store_ino_is = h.store_ino_is;
  index_ino_is = h.index_ino_is;
  full = h.full;
  behind = h.behind;
  padded = h.padded;
}

-- The segments of a closed log, each opened twice and put behind those that are there.
pub open_all :
    (k : Codec) (c : Config) (before ss : List Segment) (rss : List (List Record)) (d : Disk)
    → ShutAll k d ss rss
    → AllApart ss
    → AllSound d ss
    → AllNamed d.names ss
    → AllFit c.max_index_bytes rss
    → d.present ≡ true
    → c.max_index_bytes < 2 ^ 32
    → (ss' : List Segment) × (d' : Disk) × (add_segments (doubles ss) (env_of c before d)
        ≡ (ok tt, env_of c (before ++ ss') d'))
      × Doubled k c.max_index_bytes d' ss ss' rss
      × TouchesAll ss d d'
unfolding add_segments
open_all k c before [] [] d shuts a sound named room there small = (
  [],
  d,
  ap (λ l. (ok tt, env_of c l d)) (sym (append-nil before)),
  none_open,
  record {
    others = λ l _. refl;
    faulty_same = λ l. refl;
    names_same = refl;
    fresh_same = refl;
    present_same = refl;
  },
)
open_all k c before [] (rs ∷ rss) d shuts a sound named room there small = absurd shuts
open_all k c before (s ∷ ss) [] d shuts a sound named room there small = absurd shuts
open_all k c before (s ∷ ss) (rs ∷ rss) d (shut, shuts) (a, b, as_) (sound, sounds)
      (named, named', names) (filled, room, rooms) there small =
    let (s', d₁, t, d₂, made, twice) =
      open_one k c s rs d shut sound there named named' filled room small in
    let touches = Touches-second s.store.ino made.touches in
    let (ss', d', runs, doubled, more) =
      open_all k c ((before ++ (s' ∷ [])) ++ (t ∷ [])) ss rss d₂
        (ShutAll-kept k ss rss s.store.ino s.index.ino d d₂ touches a b shuts) as_
        (AllSound-kept ss d d₂ touches.faulty_same sounds)
        (subst (λ l. AllNamed l ss) (sym touches.names_same) names) rooms
        (touches.present_same ∙ there) small in
    let joined : ((before ++ (s' ∷ [])) ++ (t ∷ [])) ++ ss' ≡ before ++ (s' ∷ (t ∷ ss')) =
      append_assoc (before ++ (s' ∷ [])) (t ∷ []) ss' ∙ append_assoc before (s' ∷ []) (t ∷ ss') in
    (
      s' ∷ (t ∷ ss'),
      d',
      >>=-ok (add_segment s.base_offset) _
            (add_segment_lem s.base_offset (env_of c before d) made.makes)
          ∙ >>=-ok (add_segment s.base_offset) _
              (add_segment_lem s.base_offset (env_of c (before ++ (s' ∷ [])) d₁) made.again)
          ∙ runs
          ∙ ap (λ l. (ok tt, env_of c l d')) joined,
      one_open
          (OpenTwice-kept k c.max_index_bytes s s' t rs d₂ d' (more.others s.store.ino a)
            (more.others s.index.ino b) twice)
          filled doubled,
      TouchesAll-next touches more,
    )
