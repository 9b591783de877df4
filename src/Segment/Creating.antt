-- ===== src/Segment/Creating.antt =====
-- A segment whose files are new.
use aphros.Base.{
  ℕ, ◌+◌, ◌^◌, ◌<◌, ◌≡◌, ◌≢◌, refl, sym, ap, ◌∙◌, false, true, none, [], arith, length,
}
use aphros.Result.{◌>>=◌, ok, lift, pure, >>=-ok}
use aphros.Api.{Codec}
use aphros.Disk.{Disk, open_file, find_name, store_file, index_file, set_bytes, resize}
use aphros.Disk.Frame.{set_bytes_self, set_bytes-Touches}
use aphros.Disk.Creating.{created, open_file_new, find_name-snoc}
use aphros.Store
use aphros.Store.Buffer.{content}
use aphros.Index
use aphros.Index.{entry_width, minus_one}
use aphros.Index.Reopen.{opened, new_index_lem, length-resize}
use aphros.Segment.{Segment, Config, new_segment}
use aphros.Segment.Contents.{Holds}
use aphros.Segment.Closing.{next_after_lem}

-- What creating a segment at `base` needs of the disk and of the limits.
pub record CanCreate (base : ℕ) (c : Config) (d : Disk) : Type 0 where
  pub present : d.present ≡ true
  pub no_store : find_name d.names (store_file base) ≡ none
  pub no_index : find_name d.names (index_file base) ≡ none
  pub store_sound : (d.node d.fresh).faulty ≡ false
  pub index_sound : (d.node (d.fresh + 1)).faulty ≡ false
  pub some_room : 0 < c.max_index_bytes
  pub small : c.max_index_bytes < 2 ^ 32
  pub no_wrap : base < 2 ^ 64

-- What a new segment is, and what its creation leaves alone.
pub record Created (base : ℕ) (c : Config) (d : Disk) (s : Segment) (d' : Disk) : Type 0 where
  pub base_is : s.base_offset ≡ base
  pub config_is : s.config ≡ c
  pub store_ino_is : s.store.ino ≡ d.fresh
  pub index_ino_is : s.index.ino ≡ d.fresh + 1
  pub mapped_is : s.index.mapped ≡ c.max_index_bytes
  pub empty_store : content (record { self = s.store; disk = d' }) ≡ []
  pub next_is : s.next_offset ≡ base
  pub others : (l : ℕ) → l < d.fresh → d'.node l ≡ d.node l
  pub fresh_is : d'.fresh ≡ d.fresh + 2

-- newSegment at a base for which there are no files creates them, and the segment holds nothing.
pub new_segment-create :
    (k : Codec) (base : ℕ) (c : Config) (d : Disk)
    → CanCreate base c d
    → (s : Segment) × (d' : Disk) × (new_segment base c d ≡ (ok s, d'))
      × Holds k (record { self = s; disk = d' }) []
      × Created base c d s d'
unfolding new_segment
new_segment-create k base c d can =
    let d₁ = created (store_file base) d in
    let opens = open_file_new (store_file base) d can.present can.no_store in
    let new_bytes : (d₁.node d.fresh).bytes ≡ [] = set_bytes_self d d.fresh [] in
    let sound₁ : (d₁.node d.fresh).faulty ≡ false =
      (set_bytes-Touches d d.fresh []).faulty_same ∙ can.store_sound in
    let (s, news, store_ok, empty, s_ino) =
      Store.Reopen.new_store_lem d.fresh d₁ [] sound₁ new_bytes in
    let missing : find_name d₁.names (index_file base) ≡ none =
      find_name-snoc d.names (store_file base) d.fresh (index_file base) can.no_index in
    let d₂ = created (index_file base) d₁ in
    let opens' = open_file_new (index_file base) d₁ can.present missing in
    let ino = d.fresh + 1 in
    let sound₂ : (d₂.node ino).faulty ≡ false =
      (set_bytes-Touches d₁ ino []).faulty_same
      ∙ ap (λ f. f.faulty) ((set_bytes-Touches d d.fresh []).others ino (λ p. absurd (omega arith)))
      ∙ can.index_sound in
    let news' = new_index_lem ino c.max_index_bytes d₂ sound₂ can.some_room can.small in
    let i = opened ino c.max_index_bytes d₂ in
    let d₃ = set_bytes d₂ ino (resize (d₂.node ino).bytes c.max_index_bytes) in
    let bytes₂ : (d₂.node ino).bytes ≡ [] = set_bytes_self d₁ ino [] in
    let bytes₃ = set_bytes_self d₂ ino (resize (d₂.node ino).bytes c.max_index_bytes) in
    let index_ok : Index.Entries.IsIndex (record { self = i; disk = d₃ }) 0 = record {
      is_open = refl;
      sized = ap (length {A = ℕ}) bytes₂;
      mapped_all =
          sym (ap (length {A = ℕ}) bytes₃ ∙ length-resize (d₂.node ino).bytes c.max_index_bytes);
      within = omega (arith, ap (length {A = ℕ}) bytes₂);
      small = can.small;
    } in
    let kept : (l : ℕ) → l ≢ ino → d₃.node l ≡ d₁.node l = λ l ne.
      (set_bytes-Touches d₂ ino _).others l (λ p. ne (sym p))
      ∙ (set_bytes-Touches d₁ ino []).others l (λ p. ne (sym p)) in
    let store_same : d₃.node s.ino ≡ d₁.node s.ino = kept s.ino (λ p. absurd (omega arith)) in
    let content_same = Store.Records.content-kept s d₁ d₃ store_same ∙ empty in
    let last =
      next_after_lem base 0 (record { self = i; disk = d₃ }) index_ok
        (λ j below. absurd (omega arith)) (omega (arith, can.no_wrap)) in
    (
      record { store = s; index = i; base_offset = base; next_offset = base + 0; config = c },
      d₃,
      >>=-ok (open_file (store_file base)) _ opens
          ∙ >>=-ok (Store.new_store d.fresh) _ news
          ∙ >>=-ok (open_file (index_file base)) _ opens'
          ∙ >>=-ok (Index.new_index ino c.max_index_bytes) _ news'
          ∙ ap
              (λ r.
                (lift r >>= λ next. pure (record {
                  store = s;
                  index = i;
                  base_offset = base;
                  next_offset = next;
                  config = c;
                }))
                  d₃)
              last,
      record {
        store_ok = Store.Records.IsStore-kept s d₁ d₃ store_same store_ok;
        bounded = omega (arith, ap (length {A = ℕ}) content_same);
        index_ok = index_ok;
        apart = λ p. absurd (omega arith);
        next = refl;
        no_wrap = omega (arith, can.no_wrap);
        stored = λ j r found. absurd (cc);
      },
      record {
        base_is = refl;
        config_is = refl;
        store_ino_is = s_ino;
        index_ino_is = refl;
        mapped_is = refl;
        empty_store = content_same;
        next_is = omega arith;
        fresh_is = omega arith;
        others = λ l below.
            kept l (λ p. absurd (omega arith))
            ∙ (set_bytes-Touches d d.fresh []).others l (λ p. absurd (omega arith));
      },
    )
