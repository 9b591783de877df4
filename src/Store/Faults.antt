-- ===== src/Store/Faults.antt =====
-- What Append and Read return when something is wrong.
use mathlib.Core.List.{append-nil}
use aphros.Base.{
  ℕ, ◌^◌, ◌<◌, ◌≡◌, refl, sym, ap, ◌∙◌, subst, ◌-◌, take, drop, ◌⊎◌, inl, inr, true, List, [], ◌∷◌,
  ◌++◌, arith, length,
}
use aphros.Base.Bytes.{put_be, get_be, get_be-put_be}
use aphros.Base.Slices.{slice}
use aphros.Result.{Exec, Error, ◌>>◌, Result, ok, err, io_failure, invalid_size, >>=-ok}
use aphros.Store.{
  Env, set_buf, len_width, flush, flush_pending, write_through, write_rest, write_large, buf_write,
  buffer_size, file_read_at, read_body, append, read,
}
use aphros.Store.Buffer.{content, IsHealthy, flush_lem}
use aphros.Store.Records.{HoldsAt, file_read_at_lem}

-- A step that succeeds, or fails and marks the buffer as failed.
pub record Marks (e : Env) (r : Result (Unit {0}) × Env) : Type 0 where
  pub outcome : (r.0 ≡ ok tt) ⊎ ((r.0 ≡ err io_failure) × (r.1.self.failed ≡ true))
  pub size_same : r.1.self.size ≡ e.self.size

write_through-Marks : (p : List ℕ) (e : Env) → Marks e (write_through p e)
unfolding write_through
write_through-Marks p e = ground arith

Marks->> :
    (m k : Exec Env (Unit {0})) (e : Env)
    → Marks e (m e)
    → ((e' : Env) → Marks e' (k e'))
    → Marks e ((m >> k) e)
Marks->> m k e h g = elim h.outcome [
  | inl done ↦
      let rest = g (m e).1 in
      record {
        outcome = ground (arith, rest.outcome);
        size_same = ground (arith, rest.size_same, h.size_same);
      }
  | inr (failed, marked) ↦ record {
    outcome = inr (ground arith, ground arith);
    size_same = ground (arith, h.size_same);
  }
]

flush_pending-Marks : (bs : List ℕ) (e : Env) → Marks e (flush_pending bs e)
unfolding flush_pending
flush_pending-Marks [] e = ground arith
flush_pending-Marks (b ∷ bs) e =
    Marks->> (write_through (b ∷ bs)) _ e (write_through-Marks (b ∷ bs) e) (λ e'. ground arith)

flush-Marks : (e : Env) → Marks e (flush e)
unfolding flush
flush-Marks e = ground (arith, flush_pending-Marks e.self.buf e)

write_rest-Marks : (q : List ℕ) (e : Env) → Marks e (write_rest q e)
unfolding write_rest
write_rest-Marks q e = ground (arith, write_through-Marks q e)

write_large-Marks : (p bs : List ℕ) (e : Env) → Marks e (write_large p bs e)
unfolding write_large
write_large-Marks p [] e = write_through-Marks p e
write_large-Marks p (b ∷ bs) e =
    let room = buffer_size - length (b ∷ bs) in
    let filled = set_buf ((b ∷ bs) ++ take room p) e in
    let h =
      Marks->> flush (write_rest (drop room p)) filled (flush-Marks filled)
        (write_rest-Marks (drop room p)) in
    record { outcome = h.outcome; size_same = h.size_same }

buf_write-Marks : (p : List ℕ) (e : Env) → Marks e (buf_write p e)
unfolding buf_write
buf_write-Marks p e = ground (arith, write_large-Marks p e.self.buf e)

-- An Append that returns an error, on a store in any state, returns an I/O error, leaves the
-- size that positions are taken from, and marks the buffer as failed.
pub append_error :
    (p : List ℕ) (e : Env) (x : Error)
    → (append p e).0 ≡ err x
    → (x ≡ io_failure)
      × ((append p e).1.self.size ≡ e.self.size)
      × ((append p e).1.self.failed ≡ true)
unfolding append
append_error p e x failed =
    let prefix = put_be len_width (length p) in
    let first = buf_write-Marks prefix e in
    let second = buf_write-Marks p (buf_write prefix e).1 in
    ground (arith, first.outcome, first.size_same, second.outcome, second.size_same)

-- Once the buffer is marked as failed, every Append and every Read returns an I/O error and
-- changes nothing.
pub failed_sticks :
    (p : List ℕ) (position : ℕ) (e : Env)
    → e.self.failed ≡ true
    → (append p e ≡ (err io_failure, e)) × (read position e ≡ (err io_failure, e))
unfolding append read buf_write flush
failed_sticks p position e h = (ground arith, ground arith)

-- A record of no bytes is appended like any other, and a Read at its position fails: the length
-- zero is taken for an error.
pub read_empty :
    (position : ℕ) (e : Env)
    → IsHealthy e
    → HoldsAt (content e) position []
    → length (content e) < 2 ^ 63
    → (read position e).0 ≡ err invalid_size
unfolding read
read_empty position e h holds room =
    let (e₁, runs₁, adds, empty) = flush_lem e h in
    let same : content e₁ ≡ content e = adds.added ∙ append-nil (content e) in
    let holds₁ : HoldsAt (content e₁) position [] =
      subst (λ bs. HoldsAt bs position []) (sym same) holds in
    let room₁ : length (content e₁) < 2 ^ 63 = subst (λ bs. length bs < 2 ^ 63) (sym same) room in
    let first =
      file_read_at_lem position len_width e₁ adds.healthy empty (omega (arith, holds₁.within))
        (omega (arith, holds₁.within)) in
    let size : get_be (slice (content e₁) position len_width) ≡ 0 =
      ap get_be holds₁.prefix ∙ get_be-put_be len_width 0 (omega arith) in
    ap (λ r. r.0)
      (>>=-ok flush _ runs₁
        ∙ >>=-ok (file_read_at position len_width) _ first
        ∙ ap (λ n. read_body position n e₁) size)
    ∙ (unfold read_body in refl)
