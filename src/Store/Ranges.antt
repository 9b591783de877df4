-- ===== src/Store/Ranges.antt =====
-- ReadAt: any range of the store's bytes.
use mathlib.Core.List.{append-nil}
use aphros.Base.{ℕ, ◌+◌, ◌^◌, ◌<◌, ◌≡◌, sym, ap, ◌∙◌, ltb, [], ◌++◌, arith, length}
use aphros.Base.Slices.{slice}
use aphros.Result.{ok, >>=-ok}
use aphros.Store.{Env, file_of, flush, read_at}
use aphros.Store.Buffer.{content, IsHealthy, Adds, flush_lem}

-- ReadAt of a healthy store.
pub read_at_lem :
    (n off : ℕ) (e : Env)
    → IsHealthy e
    → off < 2 ^ 63
    → (e' : Env) × (read_at n off e
        ≡ (ok (slice (content e) off n, ltb (length (content e)) (off + n)), e'))
      × Adds [] e e'
unfolding read_at
read_at_lem n off e h below =
    let (e₁, runs, adds, empty) = flush_lem e h in
    let same : (file_of e₁).bytes ≡ content e =
      sym (append-nil _)
      ∙ ap (λ b. (file_of e₁).bytes ++ b) (sym empty)
      ∙ adds.added
      ∙ append-nil (content e) in
    (
      e₁,
      >>=-ok flush _ runs ∙ rw (← same) (ground (arith, adds.healthy.is_open, adds.healthy.sound)),
      adds,
    )
