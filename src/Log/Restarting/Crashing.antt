-- ===== src/Log/Restarting/Crashing.antt =====
-- A log of one segment that was not closed: its index file has its full length, and setup takes the
-- zeros behind the entries for entries.
use mathlib.Core.List.{map, append-nil}
use aphros.Base.{
  ℕ, ◌+◌, ◌-◌, ◌*◌, ◌/◌, ◌≤◌, ◌<◌, ◌^◌, ◌≡◌, refl, sym, ap, ◌∙◌, subst, true, false, some, List, [],
  ◌∷◌, ◌++◌, arith, length, length-append, length-replicate, replicate, get_elem?, get_elem?-lt,
}
use aphros.Result.{ok, err, out_of_range, ◌>>◌, >>=-ok}
use aphros.Api.{Record, Codec}
use aphros.Disk.{Disk, FileName}
use aphros.Index
use aphros.Index.{entry_width, minus_one}
use aphros.Index.Padding.{read_padding}
use aphros.Segment
use aphros.Segment.{Segment, Config}
use aphros.Segment.Reopening.{new_segment_twice}
use aphros.Segment.Reopening.Next.{next_found}
use aphros.Log.{
  Env, with_defaults, new_log, add_segment, add_segments, ensure_segment, read_from, read_in, read,
}
use aphros.Log.Contents.{HoldsAll, Chained, IsLog}
use aphros.Log.Appending.{add_segment_lem}
use aphros.Log.Opening.{read_dir_lem, setup_reads}
use aphros.Log.Reading.{read-found}
use aphros.Log.Restarting.Opening.{AllNamed, env_of, doubles}
use aphros.Log.Restarting.Names.{names_of, sorted_names, names_of-AllNamed}
use aphros.Log.Restarting.Durable.{ensure_nothing}

-- A log of one segment, whose files are the only ones of its directory, with room for an entry more in
-- its index, and zeros behind the entries there, as newIndex leaves them.
pub record CanCrash (k : Codec) (e : Env) (n : ℕ) (rs : List Record) (s : Segment) : Type 0 where
  pub is_log : IsLog k e n (rs ∷ [])
  pub only : e.self.segments ≡ s ∷ []
  pub present : e.disk.present ≡ true
  pub named : e.disk.names ≡ names_of (s ∷ [])
  pub index_sound : (e.disk.node s.index.ino).faulty ≡ false
  pub mapped_is : s.index.mapped ≡ e.self.config.max_index_bytes
  pub entries : List ℕ
  pub zeros : ℕ
  pub padded : (e.disk.node s.index.ino).bytes ≡ entries ++ replicate zeros 0
  pub entries_are : length entries ≡ length rs * entry_width
  pub room : (length rs + 1) * entry_width ≤ e.self.config.max_index_bytes

-- Read of an offset behind the first, over two segments that end behind it.
read_in_hidden :
    (k : Codec) (off b : ℕ) (s t : Segment) (d : Disk)
    → s.next_offset ≡ b + 1
    → t.next_offset ≡ b + 1
    → b + 1 ≤ off
    → (read_in k off (s ∷ (t ∷ [])) d).0 ≡ err (out_of_range off)
unfolding read_in read_from
read_in_hidden k off b s t d next next' beyond = ground arith

-- The next offset that newSegment makes of an index that ends with zeros.
zeros_next :
    (base next m p : ℕ) (cut : List ℕ) (e : Index.Env)
    → (Index.file_of e).bytes ≡ cut ++ replicate p 0
    → e.self.size ≡ m
    → e.self.mapped ≡ m
    → length cut + p ≡ m
    → length cut + entry_width ≤ m / entry_width * entry_width
    → m < 2 ^ 32
    → base + 1 < 2 ^ 64
    → Segment.next_after base (Index.read minus_one e).0 ≡ ok next
    → next ≡ base + 1
zeros_next base next m p cut e bytes size mapped whole room small wraps last =
    let is =
      next_found base (Index.read minus_one e).0 0 0 next
        (read_padding cut p e bytes (omega arith) (omega arith) (omega arith) (omega arith)) last
        (omega arith) in
    omega (arith, is)

module _ (k : Codec) (e : Env) (n : ℕ) (rs : List Record) (s : Segment) (c : Config)
    (h : CanCrash k e n rs s) (limits : with_defaults c ≡ e.self.config) where
  -- What NewLog makes of the directory, without a Close.
  crash_lem :
      0 < length rs
      → (s' : Segment) × (t : Segment) × (d' : Disk) × (new_log c e.disk
          ≡ (ok tt, env_of (with_defaults c) (s' ∷ (t ∷ [])) d'))
        × (s'.next_offset ≡ n + 1)
        × (t.next_offset ≡ n + 1)
  unfolding new_log add_segments
  crash_lem filled =
      let (base, _) = subst (Chained n) h.only h.is_log.chained in
      let (holds, _) = subst (λ ss. HoldsAll k e.disk ss (rs ∷ [])) h.only h.is_log.holds in
      let c' = with_defaults c in
      let m = c'.max_index_bytes in
      let d = e.disk in
      let j = s.index.ino in
      let limit : m ≡ e.self.config.max_index_bytes = ap (λ l. l.max_index_bytes) limits in
      let whole : length (d.node j).bytes ≡ m =
        omega (arith, holds.index_ok.mapped_all, h.mapped_is, limit) in
      let total : length h.entries + h.zeros ≡ m = omega (
        arith,
        ap (length {A = ℕ}) h.padded,
        whole,
        length-append {0} h.entries (replicate h.zeros 0),
        length-replicate {0} {A = ℕ} h.zeros 0,
      ) in
      let room : length h.entries + entry_width ≤ m / entry_width * entry_width =
        omega (arith, h.entries_are, h.room, limit) in
      let small : m < 2 ^ 32 = omega (arith, holds.index_ok.small, h.mapped_is, limit) in
      let wraps : s.base_offset + 1 < 2 ^ 64 = omega (arith, holds.no_wrap, filled) in
      let (named, named', _) =
        subst (λ l. AllNamed l (s ∷ [])) (sym h.named)
          (names_of-AllNamed m n (s ∷ []) (rs ∷ []) (base, tt)
            (filled, omega (arith, h.room, limit), tt)) in
      let (s', d₁, t, d₂, made) =
        new_segment_twice s.base_offset s.store.ino j c' d h.present named named' holds.apart
          holds.store_ok.healthy.sound h.index_sound (omega (arith, whole)) (omega (arith, room))
          small in
      let nothing_missing : m - length (d.node j).bytes ≡ 0 = omega (arith, whole) in
      let after : (d₂.node j).bytes ≡ h.entries ++ replicate h.zeros 0 =
        made.padded
        ∙ ap (λ p. (d.node j).bytes ++ replicate {A = ℕ} p 0) nothing_missing
        ∙ append-nil (d.node j).bytes
        ∙ h.padded in
      let before : (d₁.node j).bytes ≡ h.entries ++ replicate h.zeros 0 =
        ap (λ f. f.bytes) (sym (made.nodes j)) ∙ after in
      let opens : add_segments (doubles (s ∷ [])) (env_of c' [] d)
          ≡ (ok tt, env_of c' (s' ∷ (t ∷ [])) d₂) =
        >>=-ok (add_segment s.base_offset) _
          (add_segment_lem s.base_offset (env_of c' [] d) made.makes)
        ∙ >>=-ok (add_segment s.base_offset) _
            (add_segment_lem s.base_offset (env_of c' (s' ∷ []) d₁) made.again) in
      (
        s',
        t,
        d₂,
        setup_reads (env_of c' [] d) (map (λ (x : FileName × ℕ). x.0) (names_of (s ∷ [])))
              (read_dir_lem d (names_of (s ∷ [])) h.present h.named)
            ∙ ap (λ l. (add_segments l >> ensure_segment) (env_of c' [] d))
                (sorted_names n (s ∷ []) (rs ∷ []) (base, tt))
            ∙ >>=-ok (add_segments (doubles (s ∷ []))) _ opens
            ∙ ensure_nothing (env_of c' (s' ∷ (t ∷ [])) d₂) t refl,
        zeros_next s.base_offset s'.next_offset m h.zeros h.entries
              (record { self = s'.index; disk = d₁ })
              (ap (λ l. (d₁.node l).bytes) made.index_ino_is ∙ before) (made.first_size ∙ whole)
              made.first_mapped total room small wraps made.first_last
            ∙ ap (λ b. b + 1) base,
        zeros_next s.base_offset t.next_offset m h.zeros h.entries
              (record { self = t.index; disk = d₂ })
              (ap (λ l. (d₂.node l).bytes) made.index_is ∙ after) made.size_is made.mapped_is total
              room small wraps made.last
            ∙ ap (λ b. b + 1) base,
      )

  -- A sound log of one segment that is not closed, whose two files are the only ones of its directory,
  -- and whose index has room for an entry more, with zeros there; and an offset that it holds, not the
  -- first: Read gives the record of the offset; NewLog on the directory, with the same limits,
  -- succeeds; and Read of the offset is then out of range.
  pub crash_hides :
      (i : ℕ) (r : Record)
      → get_elem? rs i ≡ some r
      → 0 < i
      → (e₁ : Env) × (e₂ : Env) × (read k (n + i) e ≡ (ok r, e₁))
        × (new_log c e.disk ≡ (ok tt, e₂))
        × ((read k (n + i) e₂).0 ≡ err (out_of_range (n + i)))
  unfolding read
  crash_hides i r found behind =
      let below = get_elem?-lt rs i found in
      let (e₁, reads, _) =
        read-found k e n i (rs ∷ []) r h.is_log (ap (λ l. get_elem? l i) (append-nil rs) ∙ found)
          refl in
      let (s', t, d', opens, next, next') = crash_lem (omega arith) in
      (
        e₁,
        env_of (with_defaults c) (s' ∷ (t ∷ [])) d',
        reads,
        opens,
        read_in_hidden k (n + i) n s' t d' next next' (omega arith),
      )
