-- ===== src/Fsm/Restore.antt =====
-- Restore of a snapshot.
use aphros.Base.{
  ℕ, zero, suc, ◌+◌, ◌≤◌, ◌≡◌, refl, sym, ap, ◌∙◌, some, List, [], ◌∷◌, arith, take, drop, length,
  length-drop, inl, inr,
}
use aphros.Base.Bytes.{get_be}
use aphros.Result.{Result-cases, Error, ok, err, Exec, ◌>>=◌, ◌>>◌, >>=-ok, >>=-err}
use aphros.Api.{Record, Codec}
use aphros.Log.{Env, append}
use aphros.Log.Lifecycle.{reset_never}
use aphros.Fsm.{copied, when_first, take_frame, restore_loop, restore, start_at, decoded}

restore_empty : (k : Codec) (e : Env) → restore k [] e ≡ (ok tt, e)
unfolding restore restore_loop
restore_empty k e = refl

start_at_never :
    (k : Codec) (off : ℕ) (e : Env) → (x : Error) × (e' : Env) × (start_at k off e ≡ (err x, e'))
start_at_never k off e = reset_never _

-- Restore of a snapshot that starts with a whole record returns an error, whatever the log.
pub restore_fails :
    (k : Codec) (e : Env) (bytes payload rest : List ℕ) (r : Record)
    → take_frame k bytes ≡ ok (payload, rest)
    → k.unmarshal payload ≡ some r
    → (x : Error) × ((restore k bytes e).0 ≡ err x)
unfolding restore restore_loop
restore_fails k e [] payload rest r frame decodes = cc
restore_fails k e (b ∷ bs) payload rest r frame decodes =
    let (x, e', never) = start_at_never k r.offset e in
    let here =
      >>=-err (start_at k r.offset) (λ _. append k r >> restore_loop k (length bs) 1 rest) {s = e}
        never in
    (
      x,
      ap (λ o. o.0)
          (>>=-ok (λ (e : Env). (take_frame k (b ∷ bs), e)) _ {s = e} (ap (λ f. (f, e)) frame)
            ∙ >>=-ok (λ (e : Env). (decoded k (k.unmarshal payload), e)) _ {s = e}
                (ap (λ o. (decoded k o, e)) decodes)
            ∙ here),
    )

>>=-same :
    {A B : Type 0} (m : Exec Env A) (f g : A → Exec Env B) (e : Env)
    → ((a : A) (s : Env) → m e ≡ (ok a, s) → f a s ≡ g a s)
    → (m >>= f) e ≡ (m >>= g) e
>>=-same m f g e same = elim (Result-cases (m e).0) [
  | inl (a, is) ↦
      let runs : m e ≡ (ok a, (m e).1) = ap (λ r. (r, (m e).1)) is in
      >>=-ok m f runs ∙ same a (m e).1 runs ∙ sym (>>=-ok m g runs)
  | inr (x, is) ↦
      let runs : m e ≡ (err x, (m e).1) = ap (λ r. (r, (m e).1)) is in
      >>=-err m f runs ∙ sym (>>=-err m g runs)
]

-- Every frame takes eight bytes at least.
take_frame_shorter :
    (k : Codec) (bytes payload rest : List ℕ)
    → take_frame k bytes ≡ ok (payload, rest)
    → length rest + 8 ≤ length bytes
take_frame_shorter k bytes payload rest h =
    ground
      (arith, length-drop 8 bytes, length-drop (copied k (get_be (take 8 bytes))) (drop 8 bytes))

-- One round, once the loop agrees on what is left.
one_round :
    (k : Codec) (i : ℕ) (payload : List ℕ) (fuel fuel' : ℕ) (rest : List ℕ) (e : Env)
    → ((v : Env) → restore_loop k fuel (suc i) rest v ≡ restore_loop k fuel' (suc i) rest v)
    → ((λ (e : Env). (decoded k (k.unmarshal payload), e)) >>= λ r.
          when_first k i r.offset >> (append k r >> restore_loop k fuel (suc i) rest))
        e
      ≡ ((λ (e : Env). (decoded k (k.unmarshal payload), e)) >>= λ r.
            when_first k i r.offset >> (append k r >> restore_loop k fuel' (suc i) rest))
          e
one_round k i payload fuel fuel' rest e same =
    >>=-same (λ (e : Env). (decoded k (k.unmarshal payload), e)) _ _ e
      (λ r t _.
        >>=-same (when_first k i r.offset) _ _ t
          (λ _ u _. >>=-same (append k r) _ _ u (λ _ v _. same v)))

-- The loop of Restore ends: as many rounds as the snapshot has bytes are enough, and more make no
-- difference.
pub restore_loop_enough :
    (k : Codec) (fuel fuel' i : ℕ) (bytes : List ℕ) (e : Env)
    → length bytes ≤ fuel
    → length bytes ≤ fuel'
    → restore_loop k fuel i bytes e ≡ restore_loop k fuel' i bytes e
unfolding restore_loop
restore_loop_enough k fuel fuel' i [] e h h' = refl
restore_loop_enough k zero fuel' i (b ∷ bs) e h h' = absurd (omega arith)
restore_loop_enough k (suc fuel) zero i (b ∷ bs) e h h' = absurd (omega arith)
restore_loop_enough k (suc fuel) (suc fuel') i (b ∷ bs) e h h' =
    >>=-same (λ (e : Env). (take_frame k (b ∷ bs), e)) _ _ e
      (λ (payload, rest) s frame.
        let here : take_frame k (b ∷ bs) ≡ ok (payload, rest) = ap (λ f. f.0) frame in
        let shorter = take_frame_shorter k (b ∷ bs) payload rest here in
        one_round k i payload fuel fuel' rest s (λ v.
          restore_loop_enough k fuel fuel' (suc i) rest v (omega (arith, shorter))
            (omega (arith, shorter))))
