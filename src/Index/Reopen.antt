-- ===== src/Index/Reopen.antt =====
-- An index closed and opened again, and one that is opened while it is still in use.
use aphros.Base.{
  ℕ, ◌+◌, ◌-◌, ◌*◌, ◌^◌, ◌≤◌, ◌<◌, ◌≡◌, refl, sym, ap, ◌∙◌, subst, true, false, List, arith, length,
  length-append, length-take, length-replicate, take, drop, take_all, take-append-drop, replicate,
  leb, Bool-cases, inl, inr,
}
use aphros.Base.Slices.{slice, slice-append}
use aphros.Result.{ok}
use aphros.Disk.Frame.{Touches, set_bytes_self, set_bytes-Touches}
use aphros.Disk.{Disk, set_bytes, resize}
use aphros.Index.{
  Index, Env, file_of, offset_width, position_width, entry_width, new_index, close, is_maxed,
}
use aphros.Index.Entries.{IsIndex, HasEntry}

pub length-resize : (bs : List ℕ) (n : ℕ) → length (resize bs n) ≡ n
length-resize bs n = elim (Bool-cases (leb n (length bs))) [
  | inl short ↦ omega (
    arith,
    length-append {0} (take n bs) (replicate (n - length bs) 0),
    length-replicate {0} {A = ℕ} (n - length bs) 0,
    length-take n bs (ground arith),
    (let le : n ≤ length bs = ground arith in le),
  )
  | inr long ↦
      let le : length bs ≤ n = ground arith in
      omega (
        arith,
        length-append {0} (take n bs) (replicate (n - length bs) 0),
        length-replicate {0} {A = ℕ} (n - length bs) 0,
        le,
        ap (length {A = ℕ}) (take_all n bs le),
      )
]

-- A slice that is left whole by a change of size.
pub slice-resize :
    (bs : List ℕ) (n i k : ℕ)
    → i + k ≤ n
    → i + k ≤ length bs
    → slice (resize bs n) i k ≡ slice bs i k
slice-resize bs n i k fits within = elim (Bool-cases (leb n (length bs))) [
  | inl short ↦
      let room : i + k ≤ length (take n bs) = omega (arith, length-take n bs (ground arith)) in
      slice-append (take n bs) (replicate (n - length bs) 0) i k room
      ∙ sym (slice-append (take n bs) (drop n bs) i k room)
      ∙ ap (λ r. slice r i k) (take-append-drop n bs)
  | inr long ↦
      let le : length bs ≤ n = ground arith in
      rw (take_all n bs le) (slice-append bs (replicate (n - length bs) 0) i k within)
]

pub HasEntry-resize :
    (bs : List ℕ) (m n k off pos : ℕ)
    → k < n
    → n * entry_width ≤ m
    → n * entry_width ≤ length bs
    → HasEntry bs k off pos
    → HasEntry (resize bs m) k off pos
HasEntry-resize bs m n k off pos below fits within has = record {
  offset_part =
      slice-resize bs m (k * entry_width) offset_width (omega arith) (omega arith)
      ∙ has.offset_part;
  position_part =
      slice-resize bs m (k * entry_width + offset_width) position_width (omega arith) (omega arith)
      ∙ has.position_part;
}

abbrev pub opened : ℕ → ℕ → Disk → Index
opened ino max_bytes d = record {
  ino = ino;
  closed = false;
  mapped = max_bytes;
  size = length (d.node ino).bytes;
}

pub new_index_lem :
    (ino max_bytes : ℕ) (d : Disk)
    → (d.node ino).faulty ≡ false
    → 0 < max_bytes
    → max_bytes < 2 ^ 32
    → new_index ino max_bytes d
      ≡ (ok (opened ino max_bytes d), set_bytes d ino (resize (d.node ino).bytes max_bytes))
unfolding new_index
new_index_lem ino max_bytes d sound pos small =
    let below : leb (2 ^ 63) max_bytes ≡ false = ground arith in ground arith

close_lem :
    (e : Env)
    → e.self.closed ≡ false
    → (file_of e).faulty ≡ false
    → (close e).1.disk ≡ set_bytes e.disk e.self.ino (resize (file_of e).bytes e.self.size)
unfolding close
close_lem e is_open sound = ground arith

-- Close cuts the file to the entries.
pub length-close :
    (e : Env)
    → e.self.closed ≡ false
    → (file_of e).faulty ≡ false
    → length ((close e).1.disk.node e.self.ino).bytes ≡ e.self.size
length-close e is_open sound =
    ap (λ d. length {A = ℕ} (d.node e.self.ino).bytes) (close_lem e is_open sound)
    ∙ ap (length {A = ℕ}) (set_bytes_self e.disk e.self.ino _)
    ∙ length-resize (file_of e).bytes e.self.size

pub close_ok :
    (e : Env)
    → e.self.closed ≡ false
    → (file_of e).faulty ≡ false
    → (close e ≡ (ok tt, (close e).1)) × Touches e.self.ino e.disk (close e).1.disk
unfolding close
close_ok e is_open sound = (ground arith, ground arith)

-- Closing an index of `n` entries and opening its file again, whatever becomes of other files in
-- between, with a maximum that holds them, gives an index of the same `n` entries.
pub new_index-close :
    (e : Env) (n max_bytes : ℕ) (d : Disk)
    → IsIndex e n
    → (file_of e).faulty ≡ false
    → n * entry_width ≤ max_bytes
    → 0 < max_bytes
    → max_bytes < 2 ^ 32
    → d.node e.self.ino ≡ (close e).1.disk.node e.self.ino
    → (i : Index) × (d' : Disk) × (new_index e.self.ino max_bytes d ≡ (ok i, d'))
      × IsIndex (record { self = i; disk = d' }) n
      × ((k off pos : ℕ)
          → k < n
          → HasEntry (file_of e).bytes k off pos
          → HasEntry (d'.node i.ino).bytes k off pos)
      × Touches e.self.ino d d'
      × (i.ino ≡ e.self.ino)
new_index-close e n max_bytes d h sound fits pos small same =
    let ino = e.self.ino in
    let cut = resize (file_of e).bytes e.self.size in
    let d' = set_bytes d ino (resize (d.node ino).bytes max_bytes) in
    let closed : d.node ino ≡ (set_bytes e.disk ino cut).node ino =
      same ∙ ap (λ c. c.node ino) (close_lem e h.is_open sound) in
    let cut_bytes : (d.node ino).bytes ≡ cut =
      ap (λ f. f.bytes) closed ∙ set_bytes_self e.disk ino cut in
    let bytes : (d'.node ino).bytes ≡ resize cut max_bytes =
      set_bytes_self d ino _ ∙ ap (λ b. resize b max_bytes) cut_bytes in
    let size : length cut ≡ e.self.size = length-resize (file_of e).bytes e.self.size in
    let touched = set_bytes-Touches e.disk ino cut in
    (
      opened ino max_bytes d,
      d',
      new_index_lem ino max_bytes d (ap (λ f. f.faulty) closed ∙ touched.faulty_same ∙ sound) pos
          small,
      record {
        is_open = refl;
        sized = ap (length {A = ℕ}) cut_bytes ∙ size ∙ h.sized;
        mapped_all = sym (ap (length {A = ℕ}) bytes ∙ length-resize cut max_bytes);
        within = omega (arith, ap (length {A = ℕ}) cut_bytes, size);
        small = small;
      },
      λ k off pos' below has.
          subst (λ b. HasEntry b k off pos') (sym bytes)
            (HasEntry-resize cut max_bytes n k off pos' below fits (omega (arith, size)) (
              HasEntry-resize (file_of e).bytes e.self.size n k off pos' below (omega arith)
                (omega arith) has)),
      set_bytes-Touches d ino _,
      refl,
    )

-- An index file that is opened while it is mapped has its full length already: the new index takes
-- the padding for entries, and counts as full.
pub new_index_mapped :
    (e : Env) (n : ℕ)
    → IsIndex e n
    → (file_of e).faulty ≡ false
    → 0 < e.self.mapped
    → (i : Index) × (d : Disk) × (new_index e.self.ino e.self.mapped e.disk ≡ (ok i, d))
      × (i.size ≡ e.self.mapped)
      × (is_maxed i ≡ true)
unfolding is_maxed
new_index_mapped e n h sound pos = (
  opened e.self.ino e.self.mapped e.disk,
  set_bytes e.disk e.self.ino (resize (file_of e).bytes e.self.mapped),
  new_index_lem e.self.ino e.self.mapped e.disk sound pos h.small,
  sym h.mapped_all,
  ground arith,
)
