-- ===== src/Index/Entries.antt =====
-- Entries of an index: what Write puts in, Read gives out.
use aphros.Base.{
  ℕ, suc, ◌+◌, ◌-◌, ◌*◌, ◌/◌, ◌^◌, ◌≤◌, ◌<◌, ◌≡◌, refl, sym, ap, ◌∙◌, subst, false, List, ◌++◌,
  arith, length, length-append, u32, u64,
}
use aphros.Base.Bytes.{put_be, get_be, length-put_be, get_be-put_be}
use aphros.Base.Slices.{
  slice, splice, length-splice, slice-splice_before, slice-splice_front, slice-splice_back,
}
use aphros.Result.{ok, err, eof}
use aphros.Disk.Frame.{Touches, set_bytes_self, set_bytes-Touches}
use aphros.Disk.{Disk, set_bytes}
use aphros.Index.{
  Index, Env, file_of, offset_width, position_width, entry_width, minus_one, wanted, read_entry,
  read, is_maxed, write,
}

-- The bytes hold `off` and `pos` as entry `k`.
pub record HasEntry (bs : List ℕ) (k off pos : ℕ) : Type 0 where
  pub offset_part : slice bs (k * entry_width) offset_width ≡ put_be offset_width off
  pub position_part :
      slice bs (k * entry_width + offset_width) position_width ≡ put_be position_width pos

-- An open index of `n` entries, whose file is mapped whole.
pub record IsIndex (e : Env) (n : ℕ) : Type 0 where
  pub is_open : e.self.closed ≡ false
  pub sized : e.self.size ≡ n * entry_width
  pub mapped_all : e.self.mapped ≡ length (file_of e).bytes
  pub within : e.self.size ≤ e.self.mapped
  pub small : e.self.mapped < 2 ^ 32

-- Write on an index with room for one more entry adds it, and keeps the others.
pub write-IsIndex :
    (off pos n : ℕ) (e : Env)
    → IsIndex e n
    → (n + 1) * entry_width ≤ e.self.mapped
    → (e' : Env) × (write off pos e ≡ (ok tt, e'))
      × IsIndex e' (n + 1)
      × HasEntry (file_of e').bytes n off pos
      × ((k o p : ℕ) → k < n → HasEntry (file_of e).bytes k o p → HasEntry (file_of e').bytes k o p)
      × Touches e.self.ino e.disk e'.disk
      × (e'.self.ino ≡ e.self.ino)
      × (e'.self.mapped ≡ e.self.mapped)
unfolding write is_maxed
write-IsIndex off pos n e h room =
    let a = put_be offset_width off in
    let b = put_be position_width pos in
    let at = e.self.size in
    let bs = (file_of e).bytes in
    let written = splice bs at (a ++ b) in
    let la = length-put_be offset_width off in
    let lb = length-put_be position_width pos in
    let lab : length (a ++ b) ≡ entry_width = omega (arith, la, lb, length-append {0} a b) in
    let same = set_bytes_self e.disk e.self.ino written in
    let in_file : at ≤ length bs = omega arith in
    let e' : Env = record {
      self = record e.self { size = u64 (e.self.size + entry_width) };
      disk = set_bytes e.disk e.self.ino written;
    } in
    let kept = length-splice bs at (a ++ b) (omega (arith, lab)) in
    (
      e',
      ground arith,
      record {
        is_open = h.is_open;
        sized = omega arith;
        mapped_all = omega (arith, kept, ap (length {A = ℕ}) same);
        within = omega arith;
        small = h.small;
      },
      subst (λ r. HasEntry r n off pos) (sym same)
          (record {
            offset_part =
                ap (λ i. slice written i offset_width) (sym h.sized)
                ∙ slice-splice_front bs at a b offset_width in_file (sym la);
            position_part =
                slice-splice_back bs at a b (n * entry_width + offset_width) position_width in_file
                  (omega (arith, la)) (sym lb);
          }),
      λ k o p below has.
          subst (λ r. HasEntry r k o p) (sym same)
            (record {
              offset_part =
                  slice-splice_before bs at (a ++ b) (k * entry_width) offset_width in_file
                    (omega arith)
                  ∙ has.offset_part;
              position_part =
                  slice-splice_before bs at (a ++ b) (k * entry_width + offset_width) position_width
                    in_file (omega arith)
                  ∙ has.position_part;
            }),
      set_bytes-Touches e.disk e.self.ino written,
      refl,
      refl,
    )

-- An entry inside the index is decoded.
read_entry_lem :
    (k off pos n : ℕ) (e : Env)
    → IsIndex e n
    → k < n
    → HasEntry (file_of e).bytes k off pos
    → off < 2 ^ 32
    → pos < 2 ^ 64
    → read_entry (k * entry_width) e ≡ (ok (off, pos), e)
unfolding read_entry
read_entry_lem k off pos n e h below has fits fits' =
    let off_read : get_be (slice (file_of e).bytes (k * entry_width) offset_width) ≡ off =
      ap get_be has.offset_part ∙ get_be-put_be offset_width off (omega arith) in
    let pos_read : get_be (slice (file_of e).bytes (k * entry_width + offset_width) position_width)
        ≡ pos =
      ap get_be has.position_part ∙ get_be-put_be position_width pos (omega arith) in
    rw (off_read, pos_read) (ground arith)

-- Write on a full index returns io.EOF and changes nothing.
pub write_full :
    (off pos n : ℕ) (e : Env)
    → IsIndex e n
    → e.self.mapped < (n + 1) * entry_width
    → write off pos e ≡ (err eof, e)
unfolding write is_maxed
write_full off pos n e h full = ground arith

-- Read of an entry that is there returns what was written.
pub read-HasEntry :
    (k off pos n : ℕ) (e : Env)
    → IsIndex e n
    → k < n
    → HasEntry (file_of e).bytes k off pos
    → off < 2 ^ 32
    → pos < 2 ^ 64
    → read k e ≡ (ok (off, pos), e)
unfolding read wanted
read-HasEntry k off pos n e h below has fits fits' =
    let at : u32 k ≡ k = omega arith in
    ground (
      arith,
      ap (λ i. read_entry (i * entry_width) e) at,
      read_entry_lem k off pos n e h below has fits fits',
    )

-- Read of -1 returns the last entry.
pub read_last :
    (off pos n : ℕ) (e : Env)
    → IsIndex e (suc n)
    → HasEntry (file_of e).bytes n off pos
    → off < 2 ^ 32
    → pos < 2 ^ 64
    → read minus_one e ≡ (ok (off, pos), e)
unfolding read wanted
read_last off pos n e h has fits fits' =
    let at : u32 (e.self.size / entry_width + 2 ^ 64 - 1) ≡ n = omega arith in
    ground (
      arith,
      ap (λ i. read_entry (i * entry_width) e) at,
      read_entry_lem n off pos (suc n) e h (omega arith) has fits fits',
    )

-- Read past the last entry returns io.EOF.
pub read_beyond : (k n : ℕ) (e : Env) → IsIndex e n → n ≤ k → k < 2 ^ 32 → read k e ≡ (err eof, e)
unfolding read read_entry wanted
read_beyond k n e h beyond fits = ground arith

-- Read of an empty index returns io.EOF.
pub read_none : (in_ : ℕ) (e : Env) → IsIndex e 0 → read in_ e ≡ (err eof, e)
unfolding read
read_none in_ e h = ground arith

-- An index that is not full has room for an entry.
pub room_of_open :
    (n : ℕ) (e : Env)
    → IsIndex e n
    → is_maxed e.self ≡ false
    → e.self.size + entry_width ≤ e.self.mapped
unfolding is_maxed
room_of_open n e h open_ = ground arith

-- An index looks at no other file.
pub IsIndex-kept :
    (i : Index) (n : ℕ) (d d' : Disk)
    → d'.node i.ino ≡ d.node i.ino
    → IsIndex (record { self = i; disk = d }) n
    → IsIndex (record { self = i; disk = d' }) n
IsIndex-kept i n d d' same h = record {
  is_open = h.is_open;
  sized = h.sized;
  mapped_all = h.mapped_all ∙ ap (λ f. length f.bytes) (sym same);
  within = h.within;
  small = h.small;
}
