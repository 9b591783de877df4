-- ===== src/Fsm/Replicas.antt =====
-- The same entries, applied on two nodes.
use mathlib.Core.List.{append_assoc, append-nil}
use aphros.Base.{
  ℕ, ◌+◌, ◌≡◌, refl, sym, ap, ◌∙◌, subst, some, List, [], ◌∷◌, ◌++◌, arith, length, length-append,
}
use aphros.Result.{Result, ok}
use aphros.Api.{Record, Codec}
use aphros.Log
use aphros.Log.{Env}
use aphros.Log.Representing.{Ready, Represents, append-Represents}
use aphros.Fsm.{RequestCodec, Answer, produced, answer_of, apply}
use aphros.Fsm.Apply.{apply-append}

-- A node's log, from the state `e` to the state `e'`, as Raft applies the entries of the records `rs`
-- to it, with the answers to them. Each node has its own limits and files, and has to have room.
pub data Applying (k : Codec) (requests : RequestCodec)
    : Env → List Record → List Answer → Env → Type 0 where
  done : {e : Env} → Applying k requests e [] [] e
  next :
      {e e' e'' : Env} {rs : List Record} {answers : List Answer} (r : Record) (b : List ℕ)
      (a : Answer)
      → requests.marshal (some r) ≡ some b
      → Ready k e r
      → apply k requests (0 ∷ b) e ≡ (ok a, e')
      → Applying k requests e' rs answers e''
      → Applying k requests e (r ∷ rs) (a ∷ answers) e''

-- The offsets from `m` on, one for each record.
abbrev pub produced_from : ℕ → List Record → List Answer
produced_from m [] = []
produced_from m (r ∷ rs) = produced m ∷ produced_from (m + 1) rs

applied-Represents :
    (k : Codec) (requests : RequestCodec) (e e' : Env) (n : ℕ) (old rs : List Record)
    (answers : List Answer)
    → Represents k e n old
    → Applying k requests e rs answers e'
    → (answers ≡ produced_from (n + length old) rs) × Represents k e' n (old ++ rs)
applied-Represents k requests e e' n old [] [] h done =
    (refl, subst (Represents k e n) (sym (append-nil old)) h)
applied-Represents k requests e e' n old [] (a ∷ answers) h run = elim run [ ]
applied-Represents k requests e e' n old (r ∷ rs) [] h run = elim run [ ]
applied-Represents k requests e e'' n old (r ∷ rs) (a ∷ answers) h
      (next {e' = e'} _ b _ encodes ready runs later) =
    let (t, appends, holds) = append-Represents k e n old r h ready in
    let answer : answer_of (Log.append k r e).0 (Log.append k r e).1 ≡ (ok a, e') =
      sym (apply-append k requests r b e encodes) ∙ runs in
    let both : ◌≡◌ {A = Result Answer × Env} (ok (produced (n + length old)), t) (ok a, e') =
      sym (ap (λ (x : Result ℕ × Env). answer_of x.0 x.1) appends) ∙ answer in
    let holds' : Represents k e' n (old ++ (r ∷ [])) =
      subst (λ f. Represents k f n (old ++ (r ∷ []))) (ap (λ o. o.1) both) holds in
    let (rest, holds'') =
      applied-Represents k requests e' e'' n (old ++ (r ∷ [])) rs answers holds' later in
    let first : ok a ≡ ok (produced (n + length old)) = ap (λ o. o.0) (sym both) in
    let same : a ≡ produced (n + length old) = cc in
    (
      ap (λ x. x ∷ answers) same
          ∙ ap (λ l. produced (n + length old) ∷ l)
              (rest ∙ ap (λ m. produced_from m rs) (omega (arith, length-append {0} old (r ∷ [])))),
      subst (Represents k e'' n) (append_assoc old (r ∷ []) rs) holds'',
    )

-- Two nodes whose logs stand for the same records, with limits and files of their own, apply the same
-- entries, each with room for them: both answer every entry alike, and their logs stand for the same
-- records again, those of before and behind them those of the entries.
pub replicas_agree :
    (k : Codec) (requests : RequestCodec) (e₁ e₁' e₂ e₂' : Env) (n : ℕ) (old rs : List Record)
    (answers₁ answers₂ : List Answer)
    → Represents k e₁ n old
    → Represents k e₂ n old
    → Applying k requests e₁ rs answers₁ e₁'
    → Applying k requests e₂ rs answers₂ e₂'
    → (answers₁ ≡ answers₂) × Represents k e₁' n (old ++ rs) × Represents k e₂' n (old ++ rs)
replicas_agree k requests e₁ e₁' e₂ e₂' n old rs answers₁ answers₂ h₁ h₂ run₁ run₂ =
    let (same₁, holds₁) = applied-Represents k requests e₁ e₁' n old rs answers₁ h₁ run₁ in
    let (same₂, holds₂) = applied-Represents k requests e₂ e₂' n old rs answers₂ h₂ run₂ in
    (same₁ ∙ sym same₂, holds₁, holds₂)
