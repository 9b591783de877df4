-- ===== src/Cluster/Unique.antt =====
-- The IDs and the addresses of the members of a cluster, over Joins and Leaves.
use aphros.Base.{
  ℕ, ◌≡◌, refl, sym, ap, ◌∙◌, subst, true, false, ◌||◌, List, [], ◌∷◌, ◌++◌, arith, Bool-cases, inl,
  inr, ◌⊎◌,
}
use aphros.Base.Strings.{same_string, same_string→≡}
use aphros.Result.{ok}
use aphros.Cluster.{Server, Raft, join, leave}
use aphros.Cluster.Servers.{
  Membership, conflicts, is_same, has_joined, without, without_conflicts, join-members,
  joined_first, join_again,
}

-- A server that shares neither its ID nor its address with any of the list.
abbrev pub Clear : Server → List Server → Type 0
Clear x [] = Unit
Clear x (y ∷ ys) = (conflicts x.id x.address y ≡ false) × Clear x ys

-- Each server is clear of those behind it.
abbrev pub Unique : List Server → Type 0
Unique [] = Unit
Unique (x ∷ xs) = Clear x xs × Unique xs

same_string_sym : (a b : List ℕ) → same_string a b ≡ same_string b a
same_string_sym [] [] = refl
same_string_sym [] (b ∷ bs) = refl
same_string_sym (a ∷ as_) [] = refl
same_string_sym (a ∷ as_) (b ∷ bs) = ground (arith, same_string_sym as_ bs)

same_string_refl : (a : List ℕ) → same_string a a ≡ true
same_string_refl [] = refl
same_string_refl (a ∷ as_) = ground (arith, same_string_refl as_)

conflicts_sym : (x y : Server) → conflicts x.id x.address y ≡ conflicts y.id y.address x
conflicts_sym x y = ground (arith, same_string_sym y.id x.id, same_string_sym y.address x.address)

Clear-without : (x : Server) (id : List ℕ) (ms : List Server) → Clear x ms → Clear x (without id ms)
Clear-without x id [] h = tt
Clear-without x id (y ∷ ms) (h, hs) = elim (Bool-cases (same_string y.id id)) [
  | inl gone ↦ rw gone (Clear-without x id ms hs)
  | inr kept ↦ rw kept (h, Clear-without x id ms hs)
]

Unique-without : (id : List ℕ) (ms : List Server) → Unique ms → Unique (without id ms)
Unique-without id [] h = tt
Unique-without id (y ∷ ms) (h, hs) = elim (Bool-cases (same_string y.id id)) [
  | inl gone ↦ rw gone (Unique-without id ms hs)
  | inr kept ↦ rw kept (Clear-without y id ms h, Unique-without id ms hs)
]

Unique-without_conflicts :
    (x : Server) (servers ms : List Server)
    → Unique ms
    → Unique (without_conflicts x.id x.address servers ms)
Unique-without_conflicts x [] ms h = h
Unique-without_conflicts x (y ∷ servers) ms h = elim (Bool-cases (conflicts x.id x.address y)) [
  | inl clash ↦
      rw clash (Unique-without_conflicts x servers (without y.id ms) (Unique-without y.id ms h))
  | inr apart ↦ rw apart (Unique-without_conflicts x servers ms h)
]

abbrev pub All : (Server → Type 0) → List Server → Type 0
All P [] = Unit
All P (y ∷ ys) = P y × All P ys

All-map :
    (P Q : Server → Type 0) (ms : List Server) → ((y : Server) → P y → Q y) → All P ms → All Q ms
All-map P Q [] f h = tt
All-map P Q (y ∷ ms) f (h, hs) = (f y h, All-map P Q ms f hs)

-- A server of the list that conflicts with `x` has the ID.
abbrev pub Hit : Server → List ℕ → List Server → Type 0
Hit x id [] = ⊥
Hit x id (y ∷ ys) =
    ((same_string id y.id ≡ true) × (conflicts x.id x.address y ≡ true)) ⊎ Hit x id ys

-- A server is clear of `x`, or is going to be removed.
abbrev pub Marked : Server → List Server → Server → Type 0
Marked x servers z = (conflicts x.id x.address z ≡ false) ⊎ Hit x z.id servers

later-Marked : (x y : Server) (ys : List Server) (z : Server) → Marked x ys z → Marked x (y ∷ ys) z
later-Marked x y ys z (inl clear) = inl clear
later-Marked x y ys z (inr hit) = inr (inr hit)

All-Marked : (x : Server) (ms : List Server) → All (Marked x ms) ms
All-Marked x [] = tt
All-Marked x (y ∷ ms) = (
  elim (Bool-cases (conflicts x.id x.address y)) [
    | inl clash ↦ inr (inl (same_string_refl y.id, clash))
    | inr clear ↦ inl clear
  ],
  All-map (Marked x ms) (Marked x (y ∷ ms)) ms (later-Marked x y ms) (All-Marked x ms),
)

still-Marked :
    (x y : Server) (ys : List Server) (z : Server)
    → conflicts x.id x.address y ≡ false
    → Marked x (y ∷ ys) z
    → Marked x ys z
still-Marked x y ys z apart (inl clear) = inl clear
still-Marked x y ys z apart (inr (inl (same, clash))) = cc
still-Marked x y ys z apart (inr (inr hit)) = inr hit

Marked-without :
    (x y : Server) (ys ms : List Server)
    → All (Marked x (y ∷ ys)) ms
    → All (Marked x ys) (without y.id ms)
Marked-without x y ys [] h = tt
Marked-without x y ys (z ∷ ms) (h, hs) = elim (Bool-cases (same_string z.id y.id)) [
  | inl gone ↦ rw gone (Marked-without x y ys ms hs)
  | inr kept ↦ rw kept (
    elim h [ inl clear ↦ inl clear | inr (inl (same, clash)) ↦ cc | inr (inr hit) ↦ inr hit ],
    Marked-without x y ys ms hs,
  )
]

none-Marked : (x : Server) (ms : List Server) → All (Marked x []) ms → Clear x ms
none-Marked x [] h = tt
none-Marked x (y ∷ ms) (inl clear, hs) = (clear, none-Marked x ms hs)
none-Marked x (y ∷ ms) (inr hit, hs) = absurd hit

-- The loop of Join has removed every server that conflicts with the new one.
cleared :
    (x : Server) (servers ms : List Server)
    → All (Marked x servers) ms
    → Clear x (without_conflicts x.id x.address servers ms)
cleared x [] ms h = none-Marked x ms h
cleared x (y ∷ servers) ms h = elim (Bool-cases (conflicts x.id x.address y)) [
  | inl clash ↦ rw clash (cleared x servers (without y.id ms) (Marked-without x y servers ms h))
  | inr apart ↦ rw apart (
      cleared x servers ms (
        All-map (Marked x (y ∷ servers)) (Marked x servers) ms
          (λ z marked. still-Marked x y servers z apart marked) h))
]

Clear-snoc :
    (y x : Server) (ms : List Server)
    → Clear y ms
    → conflicts y.id y.address x ≡ false
    → Clear y (ms ++ (x ∷ []))
Clear-snoc y x [] h last = (last, tt)
Clear-snoc y x (z ∷ ms) (h, hs) last = (h, Clear-snoc y x ms hs last)

Unique-snoc : (x : Server) (ms : List Server) → Unique ms → Clear x ms → Unique (ms ++ (x ∷ []))
Unique-snoc x [] h clear = (tt, tt)
Unique-snoc x (y ∷ ms) (h, hs) (clear, clears) =
    (Clear-snoc y x ms h (conflicts_sym y x ∙ clear), Unique-snoc x ms hs clears)

joined-snoc : (x : Server) (ms : List Server) → has_joined x.id x.address (ms ++ (x ∷ [])) ≡ true
joined-snoc x [] = ground (arith, same_string_refl x.id, same_string_refl x.address)
joined-snoc x (y ∷ ms) = ground (arith, joined-snoc x ms)

-- A server that is clear of one with the ID and the address of `x` is clear of `x`.
Clear-joined :
    (x y : Server) (ms : List Server)
    → has_joined x.id x.address ms ≡ true
    → Clear y ms
    → conflicts x.id x.address y ≡ false
Clear-joined x y [] h c = cc
Clear-joined x y (z ∷ ms) h (c, cs) = elim (Bool-cases (is_same x.id x.address z)) [
  | inl same ↦
      let id : z.id ≡ x.id = same_string→≡ z.id x.id (ground arith) in
      let address : z.address ≡ x.address = same_string→≡ z.address x.address (ground arith) in
      conflicts_sym x y
      ∙ ap (λ i. same_string i y.id || same_string x.address y.address) (sym id)
      ∙ ap (λ a. same_string z.id y.id || same_string a y.address) (sym address)
      ∙ c
  | inr other ↦ Clear-joined x y ms (ground arith) cs
]

first_joined :
    (x : Server) (ms : List Server)
    → Unique ms
    → has_joined x.id x.address ms ≡ true
    → joined_first x.id x.address ms ≡ true
first_joined x [] u h = cc
first_joined x (y ∷ ms) (c, u) h = elim (Bool-cases (is_same x.id x.address y)) [
  | inl same ↦ ground arith
  | inr other ↦
      let rest : has_joined x.id x.address ms ≡ true = ground arith in
      let clear = Clear-joined x y ms rest c in rw clear (first_joined x ms u rest)
]

module _ {S : Type 0} (raft : Raft S) (m : Membership raft) where
  join-Unique :
      (x : Server) (s s' : S)
      → Unique (m.members s)
      → join raft x.id x.address s ≡ (ok tt, s')
      → Unique (m.members s') × (has_joined x.id x.address (m.members s') ≡ true)
  join-Unique x s s' u runs = elim (Bool-cases (has_joined x.id x.address (m.members s))) [
    | inl there ↦
        let same : s ≡ s' =
          ap (λ o. o.1)
            (sym (join_again raft m x.id x.address s (first_joined x (m.members s) u there))
              ∙ runs) in
        (
          subst (λ t. Unique (m.members t)) same u,
          subst (λ t. has_joined x.id x.address (m.members t) ≡ true) same there,
        )
    | inr fresh ↦
        let ms = m.members s in
        let kept = without_conflicts x.id x.address ms ms in
        let is = join-members raft m x.id x.address s s' fresh runs in
        (
          subst Unique (sym is) (
              Unique-snoc x (without x.id kept)
                (Unique-without x.id kept (Unique-without_conflicts x ms ms u))
                (Clear-without x x.id kept (cleared x ms ms (All-Marked x ms)))),
          ap (has_joined x.id x.address) is ∙ joined-snoc x (without x.id kept),
        )
  ]

  -- What Joins and Leaves that return no error lead to.
  pub data Changes (s₀ : S) : S → Type 0 where
    unchanged : Changes s₀ s₀
    joins :
        {s s' : S} (x : Server)
        → Changes s₀ s
        → join raft x.id x.address s ≡ (ok tt, s')
        → Changes s₀ s'
    leaves : {s s' : S} (id : List ℕ) → Changes s₀ s → leave raft id s ≡ (ok tt, s') → Changes s₀ s'

  changes-Unique : {s₀ s : S} → Unique (m.members s₀) → Changes s₀ s → Unique (m.members s)
  unfolding leave
  changes-Unique u unchanged = u
  changes-Unique u (joins {s} {s'} x before runs) =
      (join-Unique x s s' (changes-Unique u before) runs).0
  changes-Unique u (leaves {s} {s'} id before runs) =
      subst Unique (sym (m.removed id s s' runs))
        (Unique-without id (m.members s) (changes-Unique u before))

  -- A cluster no two members of which share an ID or an address, after Joins and Leaves that return no
  -- error, in any order, of servers that may share either with members: no two members share an ID or
  -- an address. After a further such Join that holds too, and the server that joined is a member under
  -- its ID and its address.
  pub members-Unique :
      (s₀ s s' : S) (x : Server)
      → Unique (m.members s₀)
      → Changes s₀ s
      → join raft x.id x.address s ≡ (ok tt, s')
      → Unique (m.members s)
        × Unique (m.members s')
        × (has_joined x.id x.address (m.members s') ≡ true)
  members-Unique s₀ s s' x u before runs =
      let now = changes-Unique u before in
      let (later, there) = join-Unique x s s' now runs in (now, later, there)
