-- ===== src/LogStore/Batches.antt =====
-- StoreLogs of several entries, and GetLog after it.
use mathlib.Core.List.{map, append_assoc, append-nil}
use aphros.Base.{
  ℕ, zero, suc, ◌+◌, ◌<◌, ◌≡◌, ◌⊎◌, inl, inr, refl, sym, ap, ◌∙◌, subst, some, List, [], ◌∷◌, ◌++◌,
  arith, length, get_elem?,
}
use aphros.Result.{Result, ok, err, out_of_range, >>=-ok, >>=-err}
use aphros.Api.{Record, Codec}
use aphros.Segment.Appending.{at_offset}
use aphros.Log
use aphros.Log.{Env}
use aphros.Log.Representing.{Ready, Represents, append-Represents}
use aphros.Log.History.{Answers, found, refused, read-Represents}
use aphros.LogStore.{Entry, entry_of, record_of, store_logs, get_log}

-- There is room for the entries, one behind the other, from the state `e` on; the last state is `e'`.
pub data Room (k : Codec) : Env → List Entry → Env → Type 0 where
  stored : {e : Env} → Room k e [] e
  more :
      {e e' e'' : Env} {xs : List Entry} (x : Entry) (off : ℕ)
      → Ready k e (record_of x)
      → Log.append k (record_of x) e ≡ (ok off, e')
      → Room k e' xs e''
      → Room k e (x ∷ xs) e''

store_logs_lem :
    (k : Codec) (e e' : Env) (n : ℕ) (rs : List Record) (xs : List Entry)
    → Represents k e n rs
    → Room k e xs e'
    → (store_logs k xs e ≡ (ok tt, e')) × Represents k e' n (rs ++ map record_of xs)
unfolding store_logs
store_logs_lem k e e' n rs [] h stored = (refl, subst (Represents k e n) (sym (append-nil rs)) h)
store_logs_lem k e e'' n rs (x ∷ xs) h (more {e' = e'} _ off ready runs room) =
    let (t, appends, holds) = append-Represents k e n rs (record_of x) h ready in
    let holds' : Represents k e' n (rs ++ (record_of x ∷ [])) =
      subst (λ f. Represents k f n (rs ++ (record_of x ∷ []))) (ap (λ o. o.1) (sym appends ∙ runs))
        holds in
    let (later, all) = store_logs_lem k e' e'' n (rs ++ (record_of x ∷ [])) xs holds' room in
    (
      >>=-ok (Log.append k (record_of x)) _ runs ∙ later,
      subst (Represents k e'' n) (append_assoc rs (record_of x ∷ []) (map record_of xs)) all,
    )

get_elem?-behind :
    (rs : List Record) (xs : List Entry) (j : ℕ) {x : Entry}
    → get_elem? xs j ≡ some x
    → get_elem? (rs ++ map record_of xs) (length rs + j) ≡ some (record_of x)
get_elem?-behind [] [] j h = cc
get_elem?-behind [] (y ∷ xs) zero h = ground arith
get_elem?-behind [] (y ∷ xs) (suc j) h = ground (arith, get_elem?-behind [] xs j h)
get_elem?-behind (r ∷ rs) xs j {x} h =
    let next : suc (length rs) + j ≡ suc (length rs + j) = omega arith in
    ap (λ m. get_elem? (r ∷ (rs ++ map record_of xs)) m) next ∙ get_elem?-behind rs xs j h

get_log_answer :
    (k : Codec) (n j : ℕ) (rs : List Record) (xs : List Entry) (x : Entry) (e' t : Env)
    (res : Result Record)
    → get_elem? xs j ≡ some x
    → x.index ≡ n + length rs + j
    → x.kind < 256
    → Log.read k x.index e' ≡ (res, t)
    → Answers n (rs ++ map record_of xs) x.index res
    → ((get_log k x.index e').0 ≡ ok x) ⊎ ((get_log k x.index e').0 ≡ err (out_of_range x.index))
unfolding get_log
get_log_answer k n j rs xs x e' t res there index small reads (refused is) =
    inr (ap (λ o. o.0) (>>=-err (Log.read k x.index) _ (reads ∙ ap (λ r. (r, t)) is)))
get_log_answer k n j rs xs x e' t res there index small reads (found i r at has is) =
    let same : i ≡ length rs + j = omega arith in
    let here : some r ≡ some (record_of x) =
      sym has ∙ ap (get_elem? (rs ++ map record_of xs)) same ∙ get_elem?-behind rs xs j there in
    let record_same : r ≡ record_of x = cc in
    inl (
      ap (λ o. o.0) (>>=-ok (Log.read k x.index) _ (reads ∙ ap (λ r. (r, t)) is))
      ∙ ap (λ q. ok (entry_of (at_offset q x.index))) record_same
      ∙ ap (λ m. ok (record x { kind = m })) (omega arith))

-- StoreLogs of entries for which there is room returns no error; and GetLog of any one of them whose
-- index follows on from the log's, its type a byte, then returns that entry as it was, or says that its
-- index is out of range.
pub get_log-store_logs :
    (k : Codec) (e e' : Env) (n j : ℕ) (rs : List Record) (xs : List Entry) (x : Entry)
    → Represents k e n rs
    → Room k e xs e'
    → get_elem? xs j ≡ some x
    → x.index ≡ n + length rs + j
    → x.kind < 256
    → (store_logs k xs e ≡ (ok tt, e'))
      × (((get_log k x.index e').0 ≡ ok x)
          ⊎ ((get_log k x.index e').0 ≡ err (out_of_range x.index)))
get_log-store_logs k e e' n j rs xs x h room there index small =
    let (stores, holds) = store_logs_lem k e e' n rs xs h room in
    let (res, t, reads, _, answer) =
      read-Represents k e' n (rs ++ map record_of xs) x.index holds in
    (stores, get_log_answer k n j rs xs x e' t res there index small reads answer)
