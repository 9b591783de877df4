-- ===== src/Log/History.antt =====
-- Every run of a log, from a log that holds nothing: a list of the records appended is all that its
-- answers depend on, but for the offsets at which a segment starts.
use aphros.Base.{
  ℕ, ◌+◌, ◌-◌, ◌≤◌, ◌<◌, ◌≡◌, refl, sym, ap, ◌∙◌, subst, false, ◌&&◌, ◌⊎◌, inl, inr, some, List, [],
  ◌∷◌, ◌++◌, arith, length, get_elem?, get_elem?-some, leb, ltb, leb→≤, ltb→<, Bool-cases,
}
use aphros.Result.{Result, ok, err, out_of_range}
use aphros.Api.{Record, Codec}
use aphros.Disk.{Disk}
use aphros.Segment.{Segment}
use aphros.Segment.Appending.{at_offset}
use aphros.Log.{Env, append, read}
use aphros.Log.Contents.{all_records, Chained-same, AllApart-same}
use aphros.Log.Growing.{Below, Below-same}
use aphros.Log.Reading.{is_boundary, read_in_lem}
use aphros.Log.Refusing.{read-boundary, read-outside}
use aphros.Log.Representing.{
  Ready, Represents, get_elem?-numbered, all_records_count, append-Represents,
}

-- The states that Appends and Reads of any offsets lead to, with the records appended.
pub data History (k : Codec) (e₀ : Env) : List Record → Env → Type 0 where
  opened : History k e₀ [] e₀
  appended :
      {rs : List Record} {e e' : Env} (r : Record) (res : Result ℕ)
      → History k e₀ rs e
      → Ready k e r
      → append k r e ≡ (res, e')
      → History k e₀ (rs ++ (r ∷ [])) e'
  looked :
      {rs : List Record} {e e' : Env} (off : ℕ) (res : Result Record)
      → History k e₀ rs e
      → read k off e ≡ (res, e')
      → History k e₀ rs e'

-- What a Read of `off` answers: the record appended at that offset, or that it is out of range.
pub data Answers (n : ℕ) (rs : List Record) (off : ℕ) (res : Result Record) : Type 0 where
  found :
      (i : ℕ) (r : Record)
      → off ≡ n + i
      → get_elem? rs i ≡ some r
      → res ≡ ok (at_offset r off)
      → Answers n rs off res
  refused : res ≡ err (out_of_range off) → Answers n rs off res

outside_cases :
    (n off : ℕ) (rs : List Record) (split : List (List Record))
    → length (all_records split) ≡ length rs
    → (leb n off && ltb off (n + length rs)) ≡ false
    → (off < n) ⊎ (n + length (all_records split) ≤ off)
outside_cases n off rs split total h = ground arith

read_inside :
    (k : Codec) (e : Env) (n : ℕ) (rs : List Record) (off : ℕ)
    → Represents k e n rs
    → n ≤ off
    → off < n + length rs
    → (res : Result Record) × (e' : Env) × (read k off e ≡ (res, e'))
      × Represents k e' n rs
      × Answers n rs off res
unfolding read
read_inside k e n rs off h le lt = elim (Bool-cases (is_boundary n h.split off)) [
  | inl at ↦
      (err (out_of_range off), e, read-boundary k e n off h.split h.log_ok le at, h, refused refl)
  | inr clear ↦
      let (r, found_) = get_elem?-some rs (off - n) (omega arith) in
      let same : off ≡ n + (off - n) = omega arith in
      let there : get_elem? (all_records h.split) (off - n) ≡ some (at_offset r off) =
        ap (λ l. get_elem? l (off - n)) h.records_are
        ∙ get_elem?-numbered n rs (off - n) found_
        ∙ ap (λ m. some (at_offset r m)) (sym same) in
      let (ss', d', runs, holds, shapes, touches) =
        read_in_lem k off n e.self.segments h.split e.disk (off - n) (at_offset r off)
          h.log_ok.holds h.log_ok.chained h.log_ok.apart same there clear in
      (
        ok (at_offset r off),
        record { self = record e.self { segments = ss' }; disk = d' },
        ap
            (λ (x : Result Record × (List Segment × Disk)).
              (x.0, record { self = record e.self { segments = x.1.0 }; disk = x.1.1 }))
            runs,
        record {
          split = h.split;
          log_ok = record {
            holds = holds;
            chained = Chained-same n e.self.segments ss' shapes h.log_ok.chained;
            apart = AllApart-same e.self.segments ss' shapes h.log_ok.apart;
            attached = h.log_ok.attached;
          };
          below =
              subst (λ m. Below m ss') (sym touches.fresh_same)
                (Below-same e.disk.fresh e.self.segments ss' shapes h.below);
          records_are = h.records_are;
        },
        found (off - n) r same found_ refl,
      )
]

-- Read of any offset.
pub read-Represents :
    (k : Codec) (e : Env) (n : ℕ) (rs : List Record) (off : ℕ)
    → Represents k e n rs
    → (res : Result Record) × (e' : Env) × (read k off e ≡ (res, e'))
      × Represents k e' n rs
      × Answers n rs off res
read-Represents k e n rs off h = elim (Bool-cases (leb n off && ltb off (n + length rs))) [
  | inl inside ↦
      read_inside k e n rs off h (leb→≤ n off (ground arith))
        (ltb→< off (n + length rs) (ground arith))
  | inr outside ↦
      let total = all_records_count n h.split rs h.records_are in
      (
        err (out_of_range off),
        e,
        read-outside k e n off h.split h.log_ok (outside_cases n off rs h.split total outside),
        h,
        refused refl,
      )
]

-- A log that held nothing, after Appends and Reads of any offsets, in any order, where each
-- Append is of a record whose encoding has a byte at least and can be allocated, and the last
-- segment has room for it, or is full, does not end at 0, and a new one, with room for an entry,
-- could be created, and no offset reaches 2^64: its segments hold the records appended, in their
-- order, each with the offset that its Append returned.
pub history-Represents :
    (k : Codec) (e₀ e : Env) (n : ℕ) (rs : List Record)
    → Represents k e₀ n []
    → History k e₀ rs e
    → Represents k e n rs
history-Represents k e₀ e n rs start opened = start
history-Represents k e₀ e n rs start (appended {rs = ps} {e = e₁} r res h ready runs) =
    let (e', runs', holds) =
      append-Represents k e₁ n ps r (history-Represents k e₀ e₁ n ps start h) ready in
    subst (λ f. Represents k f n (ps ++ (r ∷ []))) (ap (λ o. o.1) (sym runs' ∙ runs)) holds
history-Represents k e₀ e n rs start (looked {e = e₁} off res h runs) =
    let (res', e', runs', holds, _) =
      read-Represents k e₁ n rs off (history-Represents k e₀ e₁ n rs start h) in
    subst (λ f. Represents k f n rs) (ap (λ o. o.1) (sym runs' ∙ runs)) holds

-- A log that held nothing, after Appends and Reads of any offsets, in any order, where each
-- Append is of a record whose encoding has a byte at least and can be allocated, and the last
-- segment has room for it, or is full, does not end at 0, and a new one, with room for an entry,
-- could be created, and no offset reaches 2^64: a Read of any offset answers the record appended
-- at that offset, with that offset, or that the offset is out of range; no other record and no
-- other error.
pub read_after_history :
    (k : Codec) (e₀ e : Env) (n off : ℕ) (rs : List Record)
    → Represents k e₀ n []
    → History k e₀ rs e
    → Answers n rs off (read k off e).0
read_after_history k e₀ e n off rs start h =
    let (res, e', runs, _, answer) =
      read-Represents k e n rs off (history-Represents k e₀ e n rs start h) in
    subst (Answers n rs off) (ap (λ o. o.0) (sym runs)) answer

-- A log that held nothing, after Appends and Reads of any offsets, in any order, where each
-- Append is of a record whose encoding has a byte at least and can be allocated, and the last
-- segment has room for it, or is full, does not end at 0, and a new one, with room for an entry,
-- could be created, and no offset reaches 2^64: a further Append like them returns the offset
-- behind the last, which is the first offset and the number of records appended.
pub append_after_history :
    (k : Codec) (e₀ e : Env) (n : ℕ) (rs : List Record) (r : Record)
    → Represents k e₀ n []
    → History k e₀ rs e
    → Ready k e r
    → (append k r e).0 ≡ ok (n + length rs)
append_after_history k e₀ e n rs r start h ready =
    let (e', runs, _) =
      append-Represents k e n rs r (history-Represents k e₀ e n rs start h) ready in
    ap (λ o. o.0) runs
