-- ===== src/Segment/Reopening.antt =====
-- newSegment on the files of another segment: the first time they are opened, and again while the
-- first is in use.
pub mod Next
use aphros.Base.{
  ℕ, ◌+◌, ◌-◌, ◌*◌, ◌/◌, ◌^◌, ◌≤◌, ◌<◌, ◌≡◌, ◌≢◌, refl, sym, ap, ◌∙◌, true, false, some, List, [],
  ◌++◌, subst, arith, inl, inr, length, replicate, take_all, u64,
}
use mathlib.Core.List.{append-nil}
use aphros.Result.{Result, ◌>>=◌, ok, lift, pure, >>=-ok}
use aphros.Disk.{Disk, open_file, find_name, store_file, index_file, set_bytes, resize}
use aphros.Disk.Frame.{
  open_file_found, set_bytes_self, set_bytes_same, set_bytes-Touches, Touches, Touches-trans,
}
use aphros.Store
use aphros.Index
use aphros.Index.{entry_width, minus_one}
use aphros.Index.Reopen.{opened, new_index_lem, length-resize}
use aphros.Index.Padding.{read_cases, read_padding, read_last_place}
use aphros.Index.Entries.{HasEntry}
use aphros.Segment.{Segment, Config, new_segment, next_after, is_maxed}

-- The store that newStore makes of a file.
abbrev pub store_on : ℕ → Disk → Store.Store
store_on i d = record {
  ino = i;
  buf = [];
  failed = false;
  closed = false;
  size = length (d.node i).bytes;
}

abbrev pub index_on : ℕ → ℕ → Disk → Index.Env
index_on j m d = record { self = opened j m d; disk = set_bytes d j (resize (d.node j).bytes m) }

store_opens :
    (i : ℕ) (d : Disk) → (d.node i).faulty ≡ false → Store.new_store i d ≡ (ok (store_on i d), d)
unfolding Store.new_store
store_opens i d sound = ground arith

-- newSegment on two files that are there.
pub open_segment :
    (base i j next : ℕ) (c : Config) (d : Disk)
    → d.present ≡ true
    → find_name d.names (store_file base) ≡ some i
    → find_name d.names (index_file base) ≡ some j
    → (d.node i).faulty ≡ false
    → (d.node j).faulty ≡ false
    → 0 < c.max_index_bytes
    → c.max_index_bytes < 2 ^ 32
    → next_after base (Index.read minus_one (index_on j c.max_index_bytes d)).0 ≡ ok next
    → new_segment base c d ≡ (
      ok (record {
        store = store_on i d;
        index = opened j c.max_index_bytes d;
        base_offset = base;
        next_offset = next;
        config = c;
      }),
      (index_on j c.max_index_bytes d).disk,
    )
unfolding new_segment
open_segment base i j next c d there named named' sound sound' pos small last =
    >>=-ok (open_file (store_file base)) _ (open_file_found (store_file base) i d there named sound)
    ∙ >>=-ok (Store.new_store i) _ (store_opens i d sound)
    ∙ >>=-ok (open_file (index_file base)) _
        (open_file_found (index_file base) j d there named' sound')
    ∙ >>=-ok (Index.new_index j c.max_index_bytes) _
        (new_index_lem j c.max_index_bytes d sound' pos small)
    ∙ ap
        (λ r.
          (lift r >>= λ next. pure (record {
            store = store_on i d;
            index = opened j c.max_index_bytes d;
            base_offset = base;
            next_offset = next;
            config = c;
          }))
            (index_on j c.max_index_bytes d).disk)
        last

-- Read(-1) of an index that is mapped whole gives a next offset, whatever its bytes are.
some_next :
    (base j m : ℕ) (d : Disk)
    → length (d.node j).bytes ≤ m
    → (next : ℕ) × (next_after base (Index.read minus_one (index_on j m d)).0 ≡ ok next)
some_next base j m d fits = elim (read_cases minus_one (index_on j m d) fits) [
  | inl ended ↦ (base, ap (next_after base) ended)
  | inr ((off, pos), found) ↦ (u64 (base + off + 1), ap (next_after base) found)
]

-- A file of at most `m` bytes filled up with zeros, and that done again.
filled : (bs : List ℕ) (m : ℕ) → length bs ≤ m → resize bs m ≡ bs ++ replicate (m - length bs) 0
filled bs m le = ap (λ l. l ++ replicate (m - length bs) 0) (take_all m bs le)

resize_again : (bs : List ℕ) (m : ℕ) → resize (resize bs m) m ≡ resize bs m
resize_again bs m =
    let whole : length (resize bs m) ≡ m = length-resize bs m in
    let none_left : m - length (resize bs m) ≡ 0 = omega (arith, whole) in
    filled (resize bs m) m (omega (arith, whole))
    ∙ ap (λ k. resize bs m ++ replicate {A = ℕ} k 0) none_left
    ∙ append-nil (resize bs m)

-- The first segment made of the files `i` and `j`, and a second one, whose index counts the zeros behind
-- the entries for entries: it is full, and making it changes no file.
pub record MadeTwice (base i j : ℕ) (c : Config) (d : Disk) (s : Segment) (d₁ : Disk) (t : Segment)
    (d₂ : Disk) : Type 0 where
  pub makes : new_segment base c d ≡ (ok s, d₁)
  pub again : new_segment base c d₁ ≡ (ok t, d₂)
  pub base_is : s.base_offset ≡ base
  pub store_ino_is : s.store.ino ≡ i
  pub index_ino_is : s.index.ino ≡ j
  pub first_size : s.index.size ≡ length (d.node j).bytes
  pub first_mapped : s.index.mapped ≡ c.max_index_bytes
  pub first_last :
      next_after base (Index.read minus_one (record { self = s.index; disk = d₁ })).0
      ≡ ok s.next_offset
  pub index_is : t.index.ino ≡ j
  pub size_is : t.index.size ≡ c.max_index_bytes
  pub mapped_is : t.index.mapped ≡ c.max_index_bytes
  pub padded :
      (d₂.node j).bytes
      ≡ (d.node j).bytes ++ replicate (c.max_index_bytes - length (d.node j).bytes) 0
  pub last :
      next_after base (Index.read minus_one (record { self = t.index; disk = d₂ })).0
      ≡ ok t.next_offset
  pub full : is_maxed t ≡ true
  pub nodes : (l : ℕ) → d₂.node l ≡ d₁.node l
  pub touches : Touches j d d₂

-- newSegment twice on the same files.
pub new_segment_twice :
    (base i j : ℕ) (c : Config) (d : Disk)
    → d.present ≡ true
    → find_name d.names (store_file base) ≡ some i
    → find_name d.names (index_file base) ≡ some j
    → i ≢ j
    → (d.node i).faulty ≡ false
    → (d.node j).faulty ≡ false
    → length (d.node j).bytes ≤ c.max_index_bytes
    → 0 < c.max_index_bytes
    → c.max_index_bytes < 2 ^ 32
    → (s : Segment) × (d₁ : Disk) × (t : Segment) × (d₂ : Disk) × MadeTwice base i j c d s d₁ t d₂
unfolding is_maxed
new_segment_twice base i j c d there named named' apart sound sound' fits some_room small =
    let m = c.max_index_bytes in
    let bs = (d.node j).bytes in
    let d₁ = (index_on j m d).disk in
    let touched = set_bytes-Touches d j (resize bs m) in
    let bytes₁ : (d₁.node j).bytes ≡ resize bs m = set_bytes_self d j (resize bs m) in
    let whole : length (d₁.node j).bytes ≡ m = ap (length {A = ℕ}) bytes₁ ∙ length-resize bs m in
    let unchanged : resize (d₁.node j).bytes m ≡ (d₁.node j).bytes =
      ap (λ b. resize b m) bytes₁ ∙ resize_again bs m ∙ sym bytes₁ in
    let (next, first) = some_next base j m d fits in
    let (next', second) = some_next base j m d₁ (omega (arith, whole)) in
    (
      record {
        store = store_on i d;
        index = opened j m d;
        base_offset = base;
        next_offset = next;
        config = c;
      },
      d₁,
      record {
        store = store_on i d₁;
        index = opened j m d₁;
        base_offset = base;
        next_offset = next';
        config = c;
      },
      (index_on j m d₁).disk,
      record {
        makes =
            open_segment base i j next c d there named named' sound sound' some_room small first;
        again =
            open_segment base i j next' c d₁ there named named'
              (ap (λ f. f.faulty) (touched.others i (λ p. apart (sym p))) ∙ sound)
              (touched.faulty_same ∙ sound') some_room small second;
        base_is = refl;
        store_ino_is = refl;
        index_ino_is = refl;
        first_size = refl;
        first_mapped = refl;
        first_last = first;
        index_is = refl;
        size_is = whole;
        mapped_is = refl;
        padded =
            set_bytes_self d₁ j (resize (d₁.node j).bytes m)
            ∙ ap (λ b. resize b m) bytes₁
            ∙ resize_again bs m
            ∙ filled bs m fits;
        last = second;
        full = ground (arith, whole);
        nodes = set_bytes_same d₁ j (resize (d₁.node j).bytes m) unchanged;
        touches = Touches-trans touched (set_bytes-Touches d₁ j (resize (d₁.node j).bytes m));
      },
    )
