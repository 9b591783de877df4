-- ===== src/Log/Refusing.antt =====
-- Read of a log: the offsets that it refuses.
use aphros.Base.{
  ℕ, ◌+◌, ◌≤◌, ◌<◌, ◌≡◌, ◌≢◌, refl, ap, subst, true, ◌⊎◌, inl, inr, List, [], ◌∷◌, arith, length,
  length-append, leb, Bool-cases,
}
use aphros.Result.{Result, err, out_of_range}
use aphros.Api.{Record, Codec}
use aphros.Disk.{Disk}
use aphros.Segment.{Segment}
use aphros.Log.{Env, covers, read_from, read_in, read}
use aphros.Log.Contents.{HoldsAll, Chained, all_records, IsLog}
use aphros.Log.Reading.{is_boundary, read_in_here, read_in_later}

-- A boundary lies at or behind the end of the first segment.
boundary_ge :
    (n : ℕ) (rs : List Record) (rss : List (List Record)) (off : ℕ)
    → is_boundary n (rs ∷ rss) off ≡ true
    → n + length rs ≤ off
boundary_ge n rs [] off at = cc
boundary_ge n rs (ts ∷ rss) off at = ground (arith, boundary_ge (n + length rs) ts rss off)

boundary_next :
    (n : ℕ) (rs ts : List Record) (rss : List (List Record)) (off : ℕ)
    → is_boundary n (rs ∷ (ts ∷ rss)) off ≡ true
    → off ≢ n + length rs
    → is_boundary (n + length rs) (ts ∷ rss) off ≡ true
boundary_next n rs ts rss off at apart = ground arith

refused_at_boundary :
    (k : Codec) (off n : ℕ) (ss : List Segment) (rss : List (List Record)) (d : Disk)
    → HoldsAll k d ss rss
    → Chained n ss
    → n ≤ off
    → is_boundary n rss off ≡ true
    → read_in k off ss d ≡ (err (out_of_range off), (ss, d))
refused_at_boundary k off n ss [] d h c le at = cc
refused_at_boundary k off n ss (rs ∷ []) d h c le at = cc
refused_at_boundary k off n [] (rs ∷ (ts ∷ rss)) d h c le at = absurd h
refused_at_boundary k off n (s ∷ ss) (rs ∷ (ts ∷ rss)) d (h, hs) (c, cs) le at =
    elim (Bool-cases (covers off s)) [
      | inl inside ↦
          let ends : leb s.next_offset off ≡ true =
            ground (arith, h.next, boundary_ge n rs (ts ∷ rss) off at) in
          read_in_here k off s ss d inside (unfold read_from in rw ends)
      | inr outside ↦
          let end : n + length rs ≡ s.next_offset = omega (arith, h.next, c) in
          let reached = boundary_ge n rs (ts ∷ rss) off at in
          let beyond : s.next_offset < off = ground arith in
          read_in_later k off s ss d outside (
            refused_at_boundary k off s.next_offset ss (ts ∷ rss) d hs cs (omega arith) (
              subst (λ m. is_boundary m (ts ∷ rss) off ≡ true) end
                (boundary_next n rs ts rss off at (λ p. absurd (omega arith)))))
    ]

-- Read of an offset at which a segment other than the first starts is out of range, although the
-- log holds a record there: the segment before it is taken, which ends at that offset.
pub read-boundary :
    (k : Codec) (e : Env) (n off : ℕ) (rss : List (List Record))
    → IsLog k e n rss
    → n ≤ off
    → is_boundary n rss off ≡ true
    → read k off e ≡ (err (out_of_range off), e)
unfolding read
read-boundary k e n off rss h le at =
    ap
      (λ (x : Result Record × (List Segment × Disk)).
        (x.0, record { self = record e.self { segments = x.1.0 }; disk = x.1.1 }))
      (refused_at_boundary k off n e.self.segments rss e.disk h.holds h.chained le at)

refused_outside :
    (k : Codec) (off n : ℕ) (ss : List Segment) (rss : List (List Record)) (d : Disk)
    → HoldsAll k d ss rss
    → Chained n ss
    → (off < n) ⊎ (n + length (all_records rss) ≤ off)
    → read_in k off ss d ≡ (err (out_of_range off), (ss, d))
refused_outside k off n [] rss d h c out = unfold read_in in refl
refused_outside k off n (s ∷ ss) [] d h c out = absurd h
refused_outside k off n (s ∷ ss) (rs ∷ rss) d (h, hs) (c, cs) out =
    let total = length-append {0} rs (all_records rss) in
    elim (Bool-cases (covers off s)) [
      | inl inside ↦
          let ends : leb s.next_offset off ≡ true = ground (arith, h.next, total) in
          read_in_here k off s ss d inside (unfold read_from in rw ends)
      | inr outside ↦
          read_in_later k off s ss d outside
            (refused_outside k off s.next_offset ss rss d hs cs (omega (arith, h.next, total)))
    ]

-- Read of an offset below the first or from the end on is out of range.
pub read-outside :
    (k : Codec) (e : Env) (n off : ℕ) (rss : List (List Record))
    → IsLog k e n rss
    → (off < n) ⊎ (n + length (all_records rss) ≤ off)
    → read k off e ≡ (err (out_of_range off), e)
unfolding read
read-outside k e n off rss h out =
    ap
      (λ (x : Result Record × (List Segment × Disk)).
        (x.0, record { self = record e.self { segments = x.1.0 }; disk = x.1.1 }))
      (refused_outside k off n e.self.segments rss e.disk h.holds h.chained out)
