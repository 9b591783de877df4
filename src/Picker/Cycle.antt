-- ===== src/Picker/Cycle.antt =====
-- The turns of the followers in nextFollower.
use aphros.Base.{
  ℕ, zero, suc, ◌+◌, ◌-◌, ◌*◌, ◌/◌, ◌%◌, ◌^◌, ◌<◌, ◌≡◌, ap, ◌∙◌, false, true, some, Option, List,
  [], ◌∷◌, arith, u64, leb, leb→≤, leb→>, Bool-cases, inl, inr, length, get_elem?, get_elem?-lt,
}
use native.Mathlib.Nat.{mul-add-mod_self_left, mod-eq_of_lt, mod-lt}
use native.Mathlib.Omega.{div_any}
use aphros.Base.Strings.{contains}
use aphros.Picker.{Picker, pick, next_follower, produce_name, consume_name}

-- Some number below `len` added to `c` has the remainder `j`.
turn_of : (c len j : ℕ) → j < len → (i : ℕ) × (i < len) × ((c + i) % len ≡ j)
turn_of c len j h =
    let r = c % len in
    let q = c / len in
    let split : len * q + r ≡ c = div_any c len in
    let below : r < len = mod-lt c (omega (arith, h)) in
    elim (Bool-cases (leb r j)) [
      | inl small ↦
          let fits = leb→≤ r j small in
          (
            j - r,
            omega (arith, h, fits),
            ap (λ m. m % len) (omega (arith, split, fits))
                ∙ mul-add-mod_self_left len q j
                ∙ mod-eq_of_lt h,
          )
      | inr large ↦
          let beyond = leb→> r j large in
          (
            len + j - r,
            omega (arith, below, beyond),
            ap (λ m. m % len) (omega (arith, split, beyond, below))
                ∙ mul-add-mod_self_left len (q + 1) j
                ∙ mod-eq_of_lt h,
          )
    ]

module _ {C : Type 0} where
  -- The connections that a number of Picks in a row give.
  abbrev pub picks : List ℕ → ℕ → Picker C → List (Option C)
  picks method zero p = []
  picks method (suc n) p = let (c, p') = pick method p in c ∷ picks method n p'

  -- One turn.
  pick_turn :
      (method : List ℕ) (p : Picker C)
      → contains method produce_name ≡ false
      → contains method consume_name ≡ true
      → 0 < length p.followers
      → pick method p ≡ (
        get_elem? p.followers (u64 (p.current + 1) % length p.followers),
        record p { current = u64 (p.current + 1) },
      )
  unfolding pick next_follower
  pick_turn method p reads_not reads some_ = ground arith

  picks-get_elem? :
      (method : List ℕ) (n : ℕ) (p : Picker C) (i : ℕ)
      → contains method produce_name ≡ false
      → contains method consume_name ≡ true
      → 0 < length p.followers
      → p.current + n < 2 ^ 64
      → i < n
      → get_elem? (picks method n p) i
        ≡ some (get_elem? p.followers ((p.current + 1 + i) % length p.followers))
  picks-get_elem? method zero p i reads_not reads some_ small h = absurd (omega arith)
  picks-get_elem? method (suc n) p zero reads_not reads some_ small h =
      ap (λ (o : Option C × Picker C). some o.0) (pick_turn method p reads_not reads some_)
      ∙ ap (λ j. some (get_elem? p.followers (j % length p.followers))) (omega arith)
  picks-get_elem? method (suc n) p (suc i) reads_not reads some_ small h =
      let next = u64 (p.current + 1) in
      let same : next ≡ p.current + 1 = omega arith in
      ap (λ (o : Option C × Picker C). get_elem? (picks method n o.1) i)
        (pick_turn method p reads_not reads some_)
      ∙ picks-get_elem? method n (record p { current = next }) i reads_not reads some_
          (omega (arith, same)) (omega arith)
      ∙ ap (λ j. some (get_elem? p.followers (j % length p.followers))) (omega (arith, same))

  -- In as many Picks for a Consume method in a row as there are followers, each follower is picked,
  -- while the counter does not wrap.
  pub picks-Covers :
      (method : List ℕ) (p : Picker C) (j : ℕ) (c : C)
      → contains method produce_name ≡ false
      → contains method consume_name ≡ true
      → p.current + length p.followers < 2 ^ 64
      → get_elem? p.followers j ≡ some c
      → (i : ℕ) × (i < length p.followers)
        × (get_elem? (picks method (length p.followers) p) i ≡ some (some c))
  picks-Covers method p j c reads_not reads small found =
      let inside = get_elem?-lt p.followers j found in
      let (i, below, turn) = turn_of (p.current + 1) (length p.followers) j inside in
      (
        i,
        below,
        picks-get_elem? method (length p.followers) p i reads_not reads (omega (arith, inside))
              small below
            ∙ ap (λ k. some (get_elem? p.followers k)) turn
            ∙ ap (λ o. some o) found,
      )
