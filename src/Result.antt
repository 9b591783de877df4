-- ===== src/Result.antt =====
-- Go's (value, error) results, and methods that change an object and the disk below it.
use aphros.Base.{ℕ, ◌≡◌, refl, sym, ◌∙◌, ◌⊎◌, inl, inr, ap, Bool, true, false}

-- The errors that the packages return. `panic` stands for a run-time panic.
pub data Error : Type 0 where
  eof unexpected_eof io_failure invalid_size not_exist bad_record panic : Error
  out_of_range : ℕ → Error

pub data Result {ℓ} (A : Type ℓ) : Type ℓ where
  ok : A → Result A
  err : Error → Result A

-- What an action leaves is kept beside an error too.
abbrev pub Exec : Type 0 → Type 0 → Type 0
Exec S A = S → Result A × S

module _ {S A : Type 0} where
  abbrev pub pure : A → Exec S A
  pure a s = (ok a, s)

  abbrev pub raise : Error → Exec S A
  raise e s = (err e, s)

  abbrev pub lift : Result A → Exec S A
  lift r s = (r, s)

  abbrev pub gets : (S → A) → Exec S A
  gets f s = (ok (f s), s)

abbrev pub modify : {S : Type 0} → (S → S) → Exec S (Unit {0})
modify f s = (ok tt, f s)

module _ {S A B : Type 0} where
  abbrev pub continue : Result A → (A → Exec S B) → Exec S B
  continue (ok a) f s = f a s
  continue (err e) f s = (err e, s)

  infixl 5 ◌>>=◌
  abbrev pub ◌>>=◌ : Exec S A → (A → Exec S B) → Exec S B
  ◌>>=◌ m f s = let (r, s') = m s in continue r f s'

infixl 5 ◌>>◌
abbrev pub ◌>>◌ : {S A B : Type 0} → Exec S A → Exec S B → Exec S B
m >> k = m >>= λ _. k

-- `if test { return err }`.
abbrev pub guard : {S : Type 0} → Bool → Error → Exec S (Unit {0})
guard true e s = (ok tt, s)
guard false e s = (err e, s)

-- The first step of a block, once it is known to succeed or to fail.
module _ {S A B : Type 0} where
  pub >>=-ok :
      (m : Exec S A) (f : A → Exec S B) {s s' : S} {a : A} → m s ≡ (ok a, s') → (m >>= f) s ≡ f a s'
  >>=-ok m f h = ap (λ (r : Result A × S). continue r.0 f r.1) h

  pub >>=-err :
      (m : Exec S A) (f : A → Exec S B) {s s' : S} {e : Error}
      → m s ≡ (err e, s')
      → (m >>= f) s ≡ (err e, s')
  >>=-err m f h = ap (λ (r : Result A × S). continue r.0 f r.1) h

pub Result-cases :
    {A : Type 0} (r : Result A) → ((a : A) × (r ≡ ok a)) ⊎ ((x : Error) × (r ≡ err x))
Result-cases (ok a) = inl (a, refl)
Result-cases (err x) = inr (x, refl)

-- A block that succeeds: its first step did, and the rest after it.
pub >>=-ok_inv :
    {S A B : Type 0} (m : Exec S A) (f : A → Exec S B) (s s' : S) (b : B)
    → (m >>= f) s ≡ (ok b, s')
    → (a : A) × (t : S) × (m s ≡ (ok a, t)) × (f a t ≡ (ok b, s'))
>>=-ok_inv m f s s' b runs = elim (Result-cases (m s).0) [
  | inl (a, is) ↦
      let here : m s ≡ (ok a, (m s).1) = ap (λ r. (r, (m s).1)) is in
      (a, (m s).1, here, sym (>>=-ok m f here) ∙ runs)
  | inr (x, is) ↦
      let here : m s ≡ (err x, (m s).1) = ap (λ r. (r, (m s).1)) is in
      let clash : err x ≡ ok b = ap (λ r. r.0) (sym (>>=-err m f here) ∙ runs) in cc
]
