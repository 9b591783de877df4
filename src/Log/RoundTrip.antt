-- ===== src/Log/RoundTrip.antt =====
-- An Append to a log, and the Read at the offset that it returned.
use mathlib.Core.List.{append-nil, append_assoc}
use aphros.Base.{
  ℕ, ◌+◌, ◌^◌, ◌≤◌, ◌<◌, ◌≡◌, refl, sym, ap, ◌∙◌, subst, true, false, some, List, [], ◌∷◌, ◌++◌,
  arith, length, length-append, get_elem?, get_elem?-append_length, ◌⊎◌, inl, inr,
}
use aphros.Result.{ok, err, out_of_range}
use aphros.Api.{Record, Codec}
use aphros.Store.{max_alloc}
use aphros.Index.{entry_width}
use aphros.Segment.{Segment, is_maxed}
use aphros.Segment.Appending.{Fits, at_offset}
use aphros.Segment.Creating.{CanCreate}
use aphros.Log.{Env, last?, append, read}
use aphros.Log.Contents.{at_disk, all_records, IsLog}
use aphros.Log.Reading.{is_boundary, read-found}
use aphros.Log.Refusing.{read-boundary}
use aphros.Log.Growing.{add_last, Last-Last, Below}
use aphros.Log.Appending.{append-last}
use aphros.Log.Rotating.{append-rotates}

pub all_records-add_last :
    (rss : List (List Record)) (rs : List Record) (r : Record)
    → last? rss ≡ some rs
    → all_records (add_last rss r) ≡ all_records rss ++ (r ∷ [])
all_records-add_last [] rs r found = cc
all_records-add_last (ps ∷ []) rs r found =
    append-nil (ps ++ (r ∷ [])) ∙ ap (λ q. q ++ (r ∷ [])) (sym (append-nil ps))
all_records-add_last (ps ∷ (ts ∷ rss)) rs r found =
    ap (λ q. ps ++ q) (all_records-add_last (ts ∷ rss) rs r found)
    ∙ sym (append_assoc ps (all_records (ts ∷ rss)) (r ∷ []))

last_le :
    (rss : List (List Record)) (rs : List Record)
    → last? rss ≡ some rs
    → length rs ≤ length (all_records rss)
last_le [] rs found = cc
last_le (ps ∷ []) rs found =
    let same : ps ≡ rs = cc in omega (arith, ap (length {A = Record}) same, length-append {0} ps [])
last_le (ps ∷ (ts ∷ rss)) rs found =
    omega (arith, last_le (ts ∷ rss) rs found, length-append {0} ps (all_records (ts ∷ rss)))

is_boundary_cons :
    (n : ℕ) (ps ts : List Record) (rss : List (List Record)) (r : Record) (off : ℕ)
    → n + length ps < off
    → is_boundary (n + length ps) (add_last (ts ∷ rss) r) off ≡ false
    → is_boundary n (ps ∷ add_last (ts ∷ rss) r) off ≡ false
is_boundary_cons n ps ts [] r off beyond later = ground arith
is_boundary_cons n ps ts (us ∷ rss) r off beyond later = ground arith

-- No segment starts at an offset behind a record of the last one.
end_is_no_boundary :
    (n : ℕ) (rss : List (List Record)) (rs : List Record) (r : Record)
    → last? rss ≡ some rs
    → 0 < length rs
    → is_boundary n (add_last rss r) (n + length (all_records rss)) ≡ false
end_is_no_boundary n [] rs r found pos = refl
end_is_no_boundary n (ps ∷ []) rs r found pos = refl
end_is_no_boundary n (ps ∷ (ts ∷ [])) rs r found pos =
    ground (arith, last_le (ts ∷ []) rs found, length-append ps (all_records (ts ∷ [])))
end_is_no_boundary n (ps ∷ (ts ∷ (us ∷ rss))) rs r found pos =
    let total = length-append ps (all_records (ts ∷ (us ∷ rss))) in
    let off : n + length ps + length (all_records (ts ∷ (us ∷ rss)))
        ≡ n + length (all_records (ps ∷ (ts ∷ (us ∷ rss)))) =
      omega (arith, total) in
    let later : is_boundary (n + length ps) (ts ∷ add_last (us ∷ rss) r)
          (n + length (all_records (ps ∷ (ts ∷ (us ∷ rss)))))
        ≡ false =
      subst (λ o. is_boundary (n + length ps) (ts ∷ add_last (us ∷ rss) r) o ≡ false) off
        (end_is_no_boundary (n + length ps) (ts ∷ (us ∷ rss)) rs r found pos) in
    is_boundary_cons n ps ts (us ∷ rss) r _
      (omega (arith, last_le (ts ∷ (us ∷ rss)) rs found, total)) later

-- A segment behind others starts at the end of the log.
end_is_boundary :
    (n : ℕ) (rss : List (List Record)) (rs ps : List Record)
    → last? rss ≡ some rs
    → is_boundary n (rss ++ (ps ∷ [])) (n + length (all_records rss)) ≡ true
end_is_boundary n [] rs ps found = cc
end_is_boundary n (qs ∷ []) rs ps found = ground (arith, length-append qs [])
end_is_boundary n (qs ∷ (ts ∷ rss)) rs ps found =
    let off : n + length qs + length (all_records (ts ∷ rss))
        ≡ n + length (all_records (qs ∷ (ts ∷ rss))) =
      omega (arith, length-append {0} qs (all_records (ts ∷ rss))) in
    let later : is_boundary (n + length qs) (ts ∷ (rss ++ (ps ∷ [])))
          (n + length (all_records (qs ∷ (ts ∷ rss))))
        ≡ true =
      subst (λ o. is_boundary (n + length qs) (ts ∷ (rss ++ (ps ∷ []))) o ≡ true) off
        (end_is_boundary (n + length qs) (ts ∷ rss) rs ps found) in
    ground arith

-- The same where the last segment is the only one, whatever it has.
read_back_clear :
    (n : ℕ) (rss : List (List Record)) (rs : List Record) (r : Record)
    → last? rss ≡ some rs
    → (0 < length rs) ⊎ (rss ≡ rs ∷ [])
    → is_boundary n (add_last rss r) (n + length (all_records rss)) ≡ false
read_back_clear n rss rs r found (inl pos) = end_is_no_boundary n rss rs r found pos
read_back_clear n rss rs r found (inr only) =
    subst (λ l. is_boundary n (add_last l r) (n + length (all_records l)) ≡ false) (sym only) refl

-- Append to the last segment of a sound log, which is not full, has room for the record, and has a
-- record already or is the only one; the record's encoding has a byte at least and can be allocated:
-- the Read at the offset that the Append returned gives the record with that offset, and the log holds
-- it.
pub read-append :
    (k : Codec) (e : Env) (n : ℕ) (rss : List (List Record)) (rs : List Record) (s : Segment)
    (r : Record) (p : List ℕ)
    → IsLog k e n rss
    → last? e.self.segments ≡ some s
    → last? rss ≡ some rs
    → (0 < length rs) ⊎ (rss ≡ rs ∷ [])
    → Fits k (at_disk s e.disk) r p
    → is_maxed s ≡ false
    → (off : ℕ) × (e' : Env) × (e'' : Env) × (append k r e ≡ (ok off, e'))
      × (read k off e' ≡ (ok (at_offset r off), e''))
      × IsLog k e'' n (add_last rss (at_offset r off))
read-append k e n rss rs s r p h found found' first fits open_ =
    let off = n + length (all_records rss) in
    let (e', runs, holds) = append-last k e n rss s r p h found fits open_ in
    let there : get_elem? (all_records (add_last rss (at_offset r off))) (length (all_records rss))
        ≡ some (at_offset r off) =
      ap (λ l. get_elem? l (length (all_records rss)))
        (all_records-add_last rss rs (at_offset r off) found')
      ∙ get_elem?-append_length (all_records rss) (at_offset r off) [] in
    let (e'', reads, holds') =
      read-found k e' n (length (all_records rss)) (add_last rss (at_offset r off))
        (at_offset r off) holds there (read_back_clear n rss rs (at_offset r off) found' first) in
    (off, e', e'', runs, reads, holds')

-- Append that opens a new segment behind others: the Read at the offset that it returned is out of
-- range, although the log holds the record.
pub read-append_rotated :
    (k : Codec) (e : Env) (n : ℕ) (rss : List (List Record)) (s : Segment) (r : Record) (p : List ℕ)
    → IsLog k e n rss
    → Below e.disk.fresh e.self.segments
    → last? e.self.segments ≡ some s
    → is_maxed s ≡ true
    → 0 < n + length (all_records rss)
    → CanCreate (n + length (all_records rss)) e.self.config e.disk
    → entry_width ≤ e.self.config.max_index_bytes
    → n + length (all_records rss) + 1 < 2 ^ 64
    → k.marshal (at_offset r (n + length (all_records rss))) ≡ some p
    → 0 < length p
    → length p ≤ max_alloc
    → (off : ℕ) × (e' : Env) × (append k r e ≡ (ok off, e'))
      × (read k off e' ≡ (err (out_of_range off), e'))
      × IsLog k e' n (rss ++ ((at_offset r off ∷ []) ∷ []))
read-append_rotated k e n rss s r p h below found full pos can room wraps encodes nonempty small =
    let off = n + length (all_records rss) in
    let l = Last-Last k e.disk n e.self.segments rss s h.holds h.chained found in
    let (e', runs, holds) =
      append-rotates k e n rss s r p h below found full pos can room wraps encodes nonempty small in
    (
      off,
      e',
      runs,
      read-boundary k e' n off (rss ++ ((at_offset r off ∷ []) ∷ [])) holds (omega arith)
          (end_is_boundary n rss l.records (at_offset r off ∷ []) l.last_records),
      holds,
    )
