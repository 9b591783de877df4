-- ===== src/Picker.antt =====
-- internal/loadbalance/picker.go: the picker of gRPC's load balancer. `C` stands for
-- balancer.SubConn; the ready connections come as a list, in any order, each with its attribute
-- `is_leader`, `none` where the address has none.
pub mod Cycle
use aphros.Base.{
  ℕ, zero, suc, ◌+◌, ◌%◌, ◌≡◌, refl, Bool, true, false, ◌||◌, Option, none, some, List, [], ◌∷◌,
  ◌++◌, u64, length, get_elem?, if◌then◌else◌, arith, sym, ap, ◌∙◌, ◌⊎◌, inl, inr,
}
use mathlib.Core.List.{append_assoc, append-nil}
use aphros.Base.Strings.{contains}
use aphros.Result.{Result, Exec, ok, err, panic}

pub record Picker (C : Type 0) : Type 0 where
  pub leader : Option C
  pub followers : List C
  pub current : ℕ

-- "Produce" and "Consume".
abbrev pub produce_name : List ℕ
produce_name = 80 ∷ 114 ∷ 111 ∷ 100 ∷ 117 ∷ 99 ∷ 101 ∷ []

abbrev pub consume_name : List ℕ
consume_name = 67 ∷ 111 ∷ 110 ∷ 115 ∷ 117 ∷ 109 ∷ 101 ∷ []

module _ {C : Type 0} where
  -- The loop of Build; a type assertion on an attribute that is not there panics.
  scan : List (C × Option Bool) → List C → Exec (Picker C) (List C)
  scan [] followers p = (ok followers, p)
  scan ((c, none) ∷ rest) followers p = (err panic, p)
  scan ((c, some true) ∷ rest) followers p = scan rest followers (record p { leader = some c })
  scan ((c, some false) ∷ rest) followers p = scan rest (followers ++ (c ∷ [])) p

  abbrev built : Result (List C) → Picker C → Result (Unit {0}) × Picker C
  built (ok followers) p = (ok tt, record p { followers = followers })
  built (err x) p = (err x, p)

  pub build : List (C × Option Bool) → Exec (Picker C) (Unit {0})
  build ready p = let (r, p') = scan ready [] p in built r p'

  pub next_follower : Picker C → Option C × Picker C
  next_follower p =
      let cur = u64 (p.current + 1) in
      (get_elem? p.followers (cur % length p.followers), record p { current = cur })

  abbrev no_followers : List C → Bool
  no_followers [] = true
  no_followers (c ∷ cs) = false

  -- `none` is ErrNoSubConnAvailable.
  pub pick : List ℕ → Picker C → Option C × Picker C
  pick method p =
      if contains method produce_name || no_followers p.followers
      then (p.leader, p)
      else (if contains method consume_name then next_follower p else (none, p))

  -- The connections marked as no leader, in their order, and the last one marked as leader.
  abbrev pub followers_of : List (C × Bool) → List C
  followers_of [] = []
  followers_of ((c, true) ∷ rest) = followers_of rest
  followers_of ((c, false) ∷ rest) = c ∷ followers_of rest

  abbrev pub leader_of : List (C × Bool) → Option C → Option C
  leader_of [] old = old
  leader_of ((c, true) ∷ rest) old = leader_of rest (some c)
  leader_of ((c, false) ∷ rest) old = leader_of rest old

  abbrev pub marked : List (C × Bool) → List (C × Option Bool)
  marked [] = []
  marked ((c, b) ∷ rest) = (c, some b) ∷ marked rest

  scan_lem :
      (ready : List (C × Bool)) (fs : List C) (p : Picker C)
      → scan (marked ready) fs p
        ≡ (ok (fs ++ followers_of ready), record p { leader = leader_of ready p.leader })
  unfolding scan
  scan_lem [] fs p = ap (λ o. (ok o, p)) (sym (append-nil fs))
  scan_lem ((c, true) ∷ rest) fs p = scan_lem rest fs (record p { leader = some c })
  scan_lem ((c, false) ∷ rest) fs p =
      scan_lem rest (fs ++ (c ∷ [])) p
      ∙ ap (λ o. (ok o, record p { leader = leader_of rest p.leader }))
          (append_assoc fs (c ∷ []) (followers_of rest))

  -- Build, over ready connections that all carry the attribute, replaces the followers by those that
  -- are not marked as the leader; the
  -- leader becomes the last one marked so, and without one it stays the leader of before, ready or not.
  pub build_lem :
      (ready : List (C × Bool)) (p : Picker C)
      → build (marked ready) p ≡ (
        ok tt,
        record {
          leader = leader_of ready p.leader;
          followers = followers_of ready;
          current = p.current;
        },
      )
  unfolding build
  build_lem ready p = ap (λ (o : Result (List C) × Picker C). built o.0 o.1) (scan_lem ready [] p)

  -- Pick gives the leader for a method whose name contains "Produce", and for every method while
  -- there is no follower; then the picker stays as it is.
  pub pick-leader :
      (method : List ℕ) (p : Picker C)
      → ((contains method produce_name ≡ true) ⊎ (p.followers ≡ []))
      → pick method p ≡ (p.leader, p)
  unfolding pick
  pick-leader method p (inl h) = rw h refl
  pick-leader method p (inr h) = ground arith
