-- ===== src/Base/Slices.antt =====
-- Go's slices `b[i : i + n]` read and written over a list.
use Prim.Native.Nat.{ℕ, zero, suc, ◌+◌, ◌-◌, ◌≤◌}
use mathlib.Core.Path.{◌≡◌, refl, ap, ◌∙◌, sym, subst}
use mathlib.Core.List.{List, [], ◌∷◌, ◌++◌, append_assoc, append-nil}
use native.Mathlib.Omega.{arith}
use aphros.Base.Lists.{
  length, take, drop, length-append, length-take, length-drop, take-append_le, drop-append_le,
  take_all, take-append, take-append-drop, replicate,
}

module _ {ℓ} {A : Type ℓ} where
  unfoldable pub slice : List A → ℕ → ℕ → List A
  slice xs i n = take n (drop i xs)

  -- `copy(b[i:], ys)`: the bytes from `i` on are written over.
  unfoldable pub splice : List A → ℕ → List A → List A
  splice xs i ys = take i xs ++ (ys ++ drop (i + length ys) xs)

  pub length-slice : (xs : List A) (i n : ℕ) → i + n ≤ length xs → length (slice xs i n) ≡ n
  unfolding slice
  length-slice xs i n h = length-take n (drop i xs) (omega (arith, length-drop i xs))

  -- Bytes added behind do not change a slice.
  pub slice-append :
      (xs ys : List A) (i n : ℕ) → i + n ≤ length xs → slice (xs ++ ys) i n ≡ slice xs i n
  unfolding slice
  slice-append xs ys i n h =
      rw (drop-append_le i xs ys (omega arith))
        (take-append_le n (drop i xs) ys (omega (arith, length-drop i xs)))

  drop_skip : (xs ys : List A) (k i : ℕ) → k ≡ length xs + i → drop k (xs ++ ys) ≡ drop i ys
  drop_skip [] ys k i h = ap (λ (j : ℕ). drop j ys) (omega arith)
  drop_skip (x ∷ xs) ys zero i h = absurd (omega arith)
  drop_skip (x ∷ xs) ys (suc k) i h = drop_skip xs ys k i (omega arith)

  -- The middle of three parts.
  pub slice_middle :
      (front mid back : List A) (k n : ℕ)
      → k ≡ length front
      → n ≡ length mid
      → slice (front ++ (mid ++ back)) k n ≡ mid
  unfolding slice
  slice_middle front mid back k n h e =
      rw (drop_skip front (mid ++ back) k 0 (omega arith), e, take-append mid back)

  pub slice_last :
      (front mid : List A) (k n : ℕ)
      → k ≡ length front
      → n ≡ length mid
      → slice (front ++ mid) k n ≡ mid
  slice_last front mid k n h e =
      subst (λ m. slice (front ++ m) k n ≡ mid) (append-nil mid) (slice_middle front mid [] k n h e)

  pub length-splice :
      (xs : List A) (i : ℕ) (ys : List A)
      → i + length ys ≤ length xs
      → length (splice xs i ys) ≡ length xs
  unfolding splice
  length-splice xs i ys h =
      rw
        (
          length-append (take i xs) (ys ++ drop (i + length ys) xs),
          length-append ys (drop (i + length ys) xs),
          length-take i xs (omega arith),
          length-drop (i + length ys) xs,
        )
        (omega arith)

  -- What lies before the written place is kept.
  pub slice-splice_before :
      (xs : List A) (i : ℕ) (ys : List A) (j n : ℕ)
      → i ≤ length xs
      → j + n ≤ i
      → slice (splice xs i ys) j n ≡ slice xs j n
  unfolding splice
  slice-splice_before xs i ys j n h g =
      let fits : j + n ≤ length (take i xs) = omega (arith, length-take i xs h) in
      slice-append (take i xs) (ys ++ drop (i + length ys) xs) j n fits
      ∙ sym (slice-append (take i xs) (drop i xs) j n fits)
      ∙ ap (λ r. slice r j n) (take-append-drop i xs)

  -- The two halves of what was written are read back.
  pub slice-splice_front :
      (xs : List A) (i : ℕ) (a b : List A) (n : ℕ)
      → i ≤ length xs
      → n ≡ length a
      → slice (splice xs i (a ++ b)) i n ≡ a
  unfolding splice
  slice-splice_front xs i a b n h e = rw (append_assoc a b (drop (i + length (a ++ b)) xs)) (
      slice_middle (take i xs) a (b ++ drop (i + length (a ++ b)) xs) i n (sym (length-take i xs h))
        e)

  pub slice-splice_back :
      (xs : List A) (i : ℕ) (a b : List A) (k n : ℕ)
      → i ≤ length xs
      → k ≡ i + length a
      → n ≡ length b
      → slice (splice xs i (a ++ b)) k n ≡ b
  unfolding splice
  slice-splice_back xs i a b k n h e g =
      rw
        (
          append_assoc a b (drop (i + length (a ++ b)) xs),
          ← append_assoc (take i xs) a (b ++ drop (i + length (a ++ b)) xs),
        )
        (slice_middle (take i xs ++ a) b (drop (i + length (a ++ b)) xs) k n
          (omega (arith, length-append {ℓ} (take i xs) a, length-take i xs h)) g)

take-replicate : (n p : ℕ) → n ≤ p → take {A = ℕ} n (replicate p 0) ≡ replicate n 0
take-replicate zero p h = refl
take-replicate (suc n) zero h = absurd (omega arith)
take-replicate (suc n) (suc p) h = ap (λ (l : List ℕ). 0 ∷ l) (take-replicate n p (omega arith))

drop-replicate : (n p : ℕ) → drop {A = ℕ} n (replicate p 0) ≡ replicate (p - n) 0
drop-replicate zero p = ap (λ q. replicate {A = ℕ} q 0) (omega arith)
drop-replicate (suc n) zero =
    let none_left : ◌≡◌ {A = ℕ} 0 (0 - suc n) = omega arith in
    ap (λ q. replicate {A = ℕ} q 0) none_left
drop-replicate (suc n) (suc p) = drop-replicate n p ∙ ap (λ q. replicate {A = ℕ} q 0) (omega arith)

-- A slice of the zeros behind.
pub slice_zeros :
    (front : List ℕ) (p k n : ℕ)
    → length front ≤ k
    → k + n ≤ length front + p
    → slice (front ++ replicate p 0) k n ≡ replicate n 0
unfolding slice
slice_zeros front p k n le fits =
    ap (take {A = ℕ} n) (drop_skip front (replicate p 0) k (k - length front) (omega arith))
    ∙ ap (take {A = ℕ} n) (drop-replicate (k - length front) p)
    ∙ take-replicate n (p - (k - length front)) (omega arith)

module _ {ℓ} {A : Type ℓ} where
  drop_add : (k n m : ℕ) (xs : List A) → k ≡ n + m → drop k xs ≡ drop m (drop n xs)
  drop_add k zero m xs h = ap (λ (j : ℕ). drop j xs) (omega arith)
  drop_add zero (suc n) m xs h = absurd (omega arith)
  drop_add (suc k) (suc n) zero [] h = refl
  drop_add (suc k) (suc n) (suc m) [] h = refl
  drop_add (suc k) (suc n) m (x ∷ xs) h = drop_add k n m xs (omega arith)

  -- A slice, and what is behind it.
  pub slice_tail : (xs : List A) (i n : ℕ) → slice xs i n ++ drop (i + n) xs ≡ drop i xs
  unfolding slice
  slice_tail xs i n =
      ap (λ l. take n (drop i xs) ++ l) (drop_add (i + n) i n xs refl)
      ∙ take-append-drop n (drop i xs)

  -- A slice that reaches past the end.
  pub slice_end : (xs : List A) (i n : ℕ) → length xs ≤ i + n → slice xs i n ≡ drop i xs
  unfolding slice
  slice_end xs i n h = take_all n (drop i xs) (omega (arith, length-drop i xs))

  -- The first of two parts, and what is behind it.
  pub take_front : (xs ys : List A) (n : ℕ) → n ≡ length xs → take n (xs ++ ys) ≡ xs
  take_front xs ys n h = rw h (take-append xs ys)

  pub drop_front : (xs ys : List A) (n : ℕ) → n ≡ length xs → drop n (xs ++ ys) ≡ ys
  drop_front xs ys n h = drop_skip xs ys n 0 (omega arith)
