-- ===== src/Log/Representing.antt =====
-- A log as a list of records, whatever its segments, and Append on it.
use mathlib.Core.List.{append-nil, append_assoc}
use aphros.Base.{
  ℕ, suc, ◌+◌, ◌^◌, ◌≤◌, ◌<◌, ◌≡◌, refl, sym, ap, ◌∙◌, subst, true, false, some, List, [], ◌∷◌,
  ◌++◌, arith, length, get_elem?,
}
use aphros.Result.{ok}
use aphros.Api.{Record, Codec}
use aphros.Store.{max_alloc}
use aphros.Index.{entry_width}
use aphros.Segment.{Segment, is_maxed}
use aphros.Segment.Appending.{Fits, at_offset}
use aphros.Segment.Creating.{CanCreate}
use aphros.Log.{Env, last?, append}
use aphros.Log.Contents.{at_disk, all_records, IsLog}
use aphros.Log.Growing.{add_last, Last-Last, Below}
use aphros.Log.Appending.{append_last_lem}
use aphros.Log.Rotating.{append_rotates_lem}
use aphros.Log.RoundTrip.{all_records-add_last}

-- The records with the offsets from `n` on.
abbrev pub numbered : ℕ → List Record → List Record
numbered n [] = []
numbered n (r ∷ rs) = at_offset r n ∷ numbered (n + 1) rs

-- What the environment and the limits have to give for an Append of `r` to succeed: room in the last
-- segment, or, once that is full, the creation of another.
pub data Ready (k : Codec) (e : Env) (r : Record) : Type 0 where
  room :
      (s : Segment) (p : List ℕ)
      → last? e.self.segments ≡ some s
      → is_maxed s ≡ false
      → Fits k (at_disk s e.disk) r p
      → Ready k e r
  roll :
      (s : Segment) (p : List ℕ)
      → last? e.self.segments ≡ some s
      → is_maxed s ≡ true
      → 0 < s.next_offset
      → CanCreate s.next_offset e.self.config e.disk
      → entry_width ≤ e.self.config.max_index_bytes
      → s.next_offset + 1 < 2 ^ 64
      → k.marshal (at_offset r s.next_offset) ≡ some p
      → 0 < length p
      → length p ≤ max_alloc
      → Ready k e r

-- The log stands for the records `rs`, the first at the offset `n`.
pub record Represents (k : Codec) (e : Env) (n : ℕ) (rs : List Record) : Type 0 where
  pub split : List (List Record)
  pub log_ok : IsLog k e n split
  pub below : Below e.disk.fresh e.self.segments
  pub records_are : all_records split ≡ numbered n rs

pub length-numbered : (n : ℕ) (rs : List Record) → length (numbered n rs) ≡ length rs
length-numbered n [] = refl
length-numbered n (r ∷ rs) = ap suc (length-numbered (n + 1) rs)

numbered-snoc :
    (n : ℕ) (rs : List Record) (r : Record)
    → numbered n (rs ++ (r ∷ [])) ≡ numbered n rs ++ (at_offset r (n + length rs) ∷ [])
numbered-snoc n [] r = ap (λ m. at_offset r m ∷ []) (omega arith)
numbered-snoc n (x ∷ rs) r =
    ap (λ l. at_offset x n ∷ l)
      (numbered-snoc (n + 1) rs r
        ∙ ap (λ m. numbered (n + 1) rs ++ (at_offset r m ∷ [])) (omega arith))

pub get_elem?-numbered :
    (n : ℕ) (rs : List Record) (i : ℕ) {r : Record}
    → get_elem? rs i ≡ some r
    → get_elem? (numbered n rs) i ≡ some (at_offset r (n + i))
get_elem?-numbered n [] i h = cc
get_elem?-numbered n (x ∷ rs) ℕ.zero h = ground arith
get_elem?-numbered n (x ∷ rs) (suc i) {r} h =
    get_elem?-numbered (n + 1) rs i h ∙ ap (λ m. some (at_offset r m)) (omega arith)

pub all_records_count :
    (n : ℕ) (split : List (List Record)) (rs : List Record)
    → all_records split ≡ numbered n rs
    → length (all_records split) ≡ length rs
all_records_count n split rs h = ap (length {A = Record}) h ∙ length-numbered n rs

all_records-append_one :
    (rss : List (List Record)) (ps : List Record)
    → all_records (rss ++ (ps ∷ [])) ≡ all_records rss ++ ps
all_records-append_one [] ps = append-nil ps
all_records-append_one (rs ∷ rss) ps =
    ap (λ l. rs ++ l) (all_records-append_one rss ps) ∙ sym (append_assoc rs (all_records rss) ps)

grown_numbered :
    (n : ℕ) (all rs : List Record) (r : Record)
    → all ≡ numbered n rs
    → all ++ (at_offset r (n + length all) ∷ []) ≡ numbered n (rs ++ (r ∷ []))
grown_numbered n all rs r h =
    ap (λ l. l ++ (at_offset r (n + length l) ∷ [])) h
    ∙ ap (λ m. numbered n rs ++ (at_offset r (n + m) ∷ [])) (length-numbered n rs)
    ∙ sym (numbered-snoc n rs r)

-- Append returns the offset behind the last, and the log stands for one record more.
pub append-Represents :
    (k : Codec) (e : Env) (n : ℕ) (rs : List Record) (r : Record)
    → Represents k e n rs
    → Ready k e r
    → (e' : Env) × (append k r e ≡ (ok (n + length rs), e')) × Represents k e' n (rs ++ (r ∷ []))
append-Represents k e n rs r h (room s p found open_ fits) =
    let l = Last-Last k e.disk n e.self.segments h.split s h.log_ok.holds h.log_ok.chained found in
    let total = all_records_count n h.split rs h.records_are in
    let (e', runs, holds, keeps) = append_last_lem k e n h.split s r p h.log_ok found fits open_ in
    (
      e',
      runs ∙ ap (λ m. (ok (n + m), e')) total,
      record {
        split = add_last h.split (at_offset r (n + length (all_records h.split)));
        log_ok = holds;
        below =
            subst (λ m. Below m e'.self.segments) (sym keeps.fresh_same)
              (keeps.below e.disk.fresh h.below);
        records_are =
            all_records-add_last h.split l.records (at_offset r (n + length (all_records h.split)))
              l.last_records
            ∙ grown_numbered n (all_records h.split) rs r h.records_are;
      },
    )
append-Represents k e n rs r h (roll s p found full pos can width wraps encodes nonempty small) =
    let l = Last-Last k e.disk n e.self.segments h.split s h.log_ok.holds h.log_ok.chained found in
    let total = all_records_count n h.split rs h.records_are in
    let ends = l.ends in
    let (e', runs, holds, below, _) =
      append_rotates_lem k e n h.split s r p h.log_ok h.below found full (omega arith)
        (subst (λ m. CanCreate m e.self.config e.disk) ends can) width (omega arith)
        (subst (λ m. k.marshal (at_offset r m) ≡ some p) ends encodes) nonempty small in
    (
      e',
      runs ∙ ap (λ m. (ok (n + m), e')) total,
      record {
        split = h.split ++ ((at_offset r (n + length (all_records h.split)) ∷ []) ∷ []);
        log_ok = holds;
        below = below;
        records_are =
            all_records-append_one h.split (at_offset r (n + length (all_records h.split)) ∷ [])
            ∙ grown_numbered n (all_records h.split) rs r h.records_are;
      },
    )
