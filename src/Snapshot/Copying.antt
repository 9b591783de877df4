-- ===== src/Snapshot/Copying.antt =====
-- What copying a sound store to a sink writes.
use mathlib.Core.List.{append_assoc, append-nil}
use aphros.Base.{
  ℕ, zero, suc, ◌+◌, ◌^◌, ◌≤◌, ◌<◌, ◌≡◌, refl, sym, ap, ◌∙◌, Bool-cases, inl, inr, Bool, ltb, ltb→<,
  ltb→≥, List, [], ◌∷◌, ◌++◌, arith, length, length-append, drop,
}
use aphros.Base.Slices.{slice, length-slice, slice_tail, slice_end}
use aphros.Result.{Result, ok, >>=-ok}
use aphros.Api.{Record, Codec}
use aphros.Disk.{Disk}
use aphros.Disk.Frame.{Touches}
use aphros.Store
use aphros.Store.{file_of}
use aphros.Store.Buffer.{content, IsHealthy, Adds, Adds-trans}
use aphros.Store.Ranges.{read_at_lem}
use aphros.Segment.{Segment, store_env, with_store}
use aphros.Segment.Contents.{Holds, Holds-with_store, store_bytes}
use aphros.Log.Contents.{at_disk}
use aphros.Snapshot.{Sink, Env, copy_size, on_store, emit, copy_rounds, copy_store}

-- A sink that keeps what it is given.
pub record Collects {S : Type 0} (sink : Sink S) : Type 0 where
  pub written : S → List ℕ
  pub writes :
      (bs : List ℕ) (s : S)
      → (s' : S) × (sink.write bs s ≡ (ok tt, s')) × (written s' ≡ written s ++ bs)
  pub closes : (s : S) → (s' : S) × (sink.close s ≡ (ok tt, s')) × (written s' ≡ written s)

module _ {S : Type 0} (sink : Sink S) (law : Collects sink) where
  emit_lem :
      (bs : List ℕ) (e : Env S)
      → (s : S) × (emit sink bs e ≡ (ok tt, record { from = e.from; to = s }))
        × (law.written s ≡ law.written e.to ++ bs)
  unfolding emit
  emit_lem [] e = (e.to, refl, sym (append-nil _))
  emit_lem (b ∷ bs) e =
      let (s, runs, kept) = law.writes (b ∷ bs) e.to in
      (s, ap (λ (x : Result (Unit {0}) × S). (x.0, record { from = e.from; to = x.1 })) runs, kept)

  -- The rounds from `off` write what is behind `off`.
  copy_rounds_lem :
      (fuel off : ℕ) (e : Env S)
      → IsHealthy e.from
      → length (content e.from) < 2 ^ 63
      → off ≤ length (content e.from)
      → length (content e.from) < off + fuel
      → (e' : Env S) × (copy_rounds sink fuel off e ≡ (ok tt, e'))
        × Adds [] e.from e'.from
        × (law.written e'.to ≡ law.written e.to ++ drop off (content e.from))
  unfolding copy_rounds
  copy_rounds_lem zero off e h bound there enough = absurd (omega arith)
  copy_rounds_lem (suc fuel) off e h bound there enough =
      let bs = content e.from in
      let (t, reads, adds) = read_at_lem copy_size off e.from h (omega arith) in
      let got = slice bs off copy_size in
      let read : on_store (Store.read_at copy_size off) e
          ≡ (ok (got, ltb (length bs) (off + copy_size)), record { from = t; to = e.to }) =
        ap (λ (x : Result (List ℕ × Bool) × Store.Env). (x.0, record { from = x.1; to = e.to }))
          reads in
      let (s, emits, kept) = emit_lem got (record { from = t; to = e.to }) in
      let e₂ : Env S = record { from = t; to = s } in
      let same : content t ≡ bs = adds.added ∙ append-nil bs in
      elim (Bool-cases (ltb (length bs) (off + copy_size))) [
        | inl short ↦ (
          e₂,
          >>=-ok (on_store (Store.read_at copy_size off)) _ read
              ∙ >>=-ok (emit sink got) _ emits
              ∙ rw short refl,
          adds,
          kept
              ∙ ap (λ b. law.written e.to ++ b)
                  (slice_end bs off copy_size (omega (arith, ltb→< _ _ short))),
        )
        | inr long ↦
            let inside = ltb→≥ (length bs) (off + copy_size) long in
            let lengths : length got ≡ copy_size = length-slice bs off copy_size inside in
            let sizes = ap (length {A = ℕ}) same in
            let (e', runs, adds', kept') =
              copy_rounds_lem fuel (off + length got) e₂ adds.healthy (omega (arith, sizes, bound))
                (omega (arith, sizes, lengths, inside)) (omega (arith, sizes, lengths, enough)) in
            (
              e',
              >>=-ok (on_store (Store.read_at copy_size off)) _ read
                  ∙ >>=-ok (emit sink got) _ emits
                  ∙ rw long runs,
              Adds-trans adds adds',
              kept'
                  ∙ ap (λ w. w ++ drop (off + length got) (content t)) kept
                  ∙ append_assoc (law.written e.to) got _
                  ∙ ap (λ c. law.written e.to ++ (got ++ drop (off + length got) c)) same
                  ∙ ap (λ n. law.written e.to ++ (got ++ drop (off + n) bs)) lengths
                  ∙ ap (λ b. law.written e.to ++ b) (slice_tail bs off copy_size),
            )
      ]

-- Copying the store of a segment that holds records writes the store's bytes, and the segment holds
-- the same records.
module _ {S : Type 0} (sink : Sink S) (law : Collects sink) where
  pub copy_segment_lem :
      (k : Codec) (g : Segment) (rs : List Record) (d : Disk) (s : S)
      → Holds k (at_disk g d) rs
      → (t : Store.Env) × (s' : S) × (copy_store sink
            (record { from = store_env (at_disk g d); to = s })
          ≡ (ok tt, record { from = t; to = s' }))
        × (law.written s' ≡ law.written s ++ store_bytes (at_disk g d))
        × Holds k (with_store (at_disk g d) t) rs
        × Touches g.store.ino d t.disk
        × (t.self.ino ≡ g.store.ino)
  unfolding copy_store
  copy_segment_lem k g rs d s h =
      let e : Env S = record { from = store_env (at_disk g d); to = s } in
      let sizes = length-append (file_of e.from).bytes g.store.buf in
      let (e', runs, adds, kept) =
        copy_rounds_lem sink law _ 0 e h.store_ok.healthy h.bounded (omega arith)
          (omega (arith, sizes)) in
      let same = ap (length {A = ℕ}) (adds.added ∙ append-nil (content e.from)) in
      (
        e'.from,
        e'.to,
        runs,
        kept,
        Holds-with_store k (at_disk g d) e'.from rs [] h adds.added
            (record {
              healthy = adds.healthy;
              sized = omega (arith, same, adds.size_same, h.store_ok.sized);
            })
            (omega (arith, same, h.bounded)) adds.touches adds.ino_same,
        adds.touches,
        adds.ino_same,
      )
