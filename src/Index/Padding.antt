-- ===== src/Index/Padding.antt =====
-- An index whose file is mapped already: its size counts the zeros behind the entries.
use aphros.Base.{
  ℕ, ◌+◌, ◌-◌, ◌*◌, ◌/◌, ◌^◌, ◌≤◌, ◌<◌, ◌≡◌, refl, ap, ◌∙◌, ◌⊎◌, inl, inr, Bool-cases, ltb, ltb→<,
  ltb→≥, ◌==◌, List, ◌++◌, arith, length, replicate, u32,
}
use aphros.Base.Bytes.{get_be, read_be, get_be-put_be}
use aphros.Base.Slices.{slice, slice_zeros}
use aphros.Result.{ok, err, eof}
use aphros.Index.Entries.{HasEntry}
use aphros.Index.{
  Env, file_of, offset_width, position_width, entry_width, minus_one, wanted, read_entry, read,
}

entry_there :
    (at : ℕ) (e : Env)
    → at + entry_width ≤ e.self.size
    → at + entry_width ≤ e.self.mapped
    → read_entry at e ≡ (
      ok (
        get_be (slice (file_of e).bytes at offset_width),
        get_be (slice (file_of e).bytes (at + offset_width) position_width),
      ),
      e,
    )
unfolding read_entry
entry_there at e h h' = ground arith

entry_missing : (at : ℕ) (e : Env) → e.self.size < at + entry_width → read_entry at e ≡ (err eof, e)
unfolding read_entry
entry_missing at e h = ground arith

-- Read of an index that is mapped whole gives an entry or io.EOF.
pub read_cases :
    (in_ : ℕ) (e : Env)
    → e.self.size ≤ e.self.mapped
    → ((read in_ e).0 ≡ err eof) ⊎ ((x : ℕ × ℕ) × ((read in_ e).0 ≡ ok x))
unfolding read
read_cases in_ e fits =
    let at = wanted in_ e.self * entry_width in
    elim (Bool-cases (ltb e.self.size (at + entry_width))) [
      | inl short ↦ inl (ground (arith, entry_missing at e (ltb→< _ _ short)))
      | inr long ↦
          let there = ltb→≥ e.self.size (at + entry_width) long in
          elim (Bool-cases (e.self.size == 0)) [
            | inl empty ↦ inl (rw empty refl)
            | inr some_ ↦ inr (
              (
                get_be (slice (file_of e).bytes at offset_width),
                get_be (slice (file_of e).bytes (at + offset_width) position_width),
              ),
              rw some_ (ap (λ o. o.0) (entry_there at e there (omega arith))),
            )
          ]
    ]

-- Read(-1) of such an index, with room for one entry more behind its `cut` bytes, gives the entry of
-- zeros in the last place.
pub read_padding :
    (cut : List ℕ) (p : ℕ) (e : Env)
    → (file_of e).bytes ≡ cut ++ replicate p 0
    → e.self.size ≡ length cut + p
    → e.self.mapped ≡ length cut + p
    → e.self.size < 2 ^ 32
    → length cut + entry_width ≤ e.self.size / entry_width * entry_width
    → (read minus_one e).0 ≡ ok (0, 0)
unfolding read wanted
read_padding cut p e bytes size mapped small room =
    let at : u32 (e.self.size / entry_width + 2 ^ 64 - 1) ≡ e.self.size / entry_width - 1 =
      omega arith in
    let start = (e.self.size / entry_width - 1) * entry_width in
    let first : get_be (slice (file_of e).bytes start offset_width) ≡ 0 =
      ap (λ b. get_be (slice b start offset_width)) bytes
      ∙ ap get_be (slice_zeros cut p start offset_width (omega arith) (omega arith))
      ∙ (unfold read_be in refl) in
    let second : get_be (slice (file_of e).bytes (start + offset_width) position_width) ≡ 0 =
      ap (λ b. get_be (slice b (start + offset_width) position_width)) bytes
      ∙ ap get_be
          (slice_zeros cut p (start + offset_width) position_width (omega arith) (omega arith))
      ∙ (unfold read_be in refl) in
    ground (
      arith,
      ap (λ i. read_entry (i * entry_width) e) at,
      entry_there start e (omega arith) (omega arith),
      first,
      second,
    )

-- Read(-1) gives the entry in the last whole place, whatever lies behind it.
pub read_last_place :
    (off pos n : ℕ) (e : Env)
    → e.self.size / entry_width ≡ n + 1
    → e.self.size ≤ e.self.mapped
    → e.self.size < 2 ^ 32
    → HasEntry (file_of e).bytes n off pos
    → off < 2 ^ 32
    → pos < 2 ^ 64
    → (read minus_one e).0 ≡ ok (off, pos)
unfolding read wanted
read_last_place off pos n e entries fits small has fits_off fits_pos =
    let at : u32 (e.self.size / entry_width + 2 ^ 64 - 1) ≡ n = omega arith in
    let off_read : get_be (slice (file_of e).bytes (n * entry_width) offset_width) ≡ off =
      ap get_be has.offset_part ∙ get_be-put_be offset_width off (omega arith) in
    let pos_read : get_be (slice (file_of e).bytes (n * entry_width + offset_width) position_width)
        ≡ pos =
      ap get_be has.position_part ∙ get_be-put_be position_width pos (omega arith) in
    ground (
      arith,
      ap (λ i. read_entry (i * entry_width) e) at,
      entry_there (n * entry_width) e (omega arith) (omega arith),
      off_read,
      pos_read,
    )
