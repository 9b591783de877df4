-- ===== src/Cluster/Servers.antt =====
-- Join, Leave and GetServers over a cluster.
use aphros.Base.{
  ℕ, ◌≡◌, sym, ap, subst, ◌∙◌, Bool, true, false, ◌&&◌, ◌||◌, List, [], ◌∷◌, ◌++◌, if◌then◌else◌,
  arith,
}
use aphros.Base.Strings.{same_string}
use aphros.Result.{ok, Exec, pure, ◌>>◌, >>=-ok, >>=-ok_inv}
use aphros.Cluster.{Server, Raft, remove_conflicts, join}

abbrev pub without : List ℕ → List Server → List Server
without id [] = []
without id (srv ∷ rest) = if same_string srv.id id then without id rest else srv ∷ without id rest

-- What hashicorp/raft documents of a configuration: RemoveServer takes the server with the ID out,
-- AddVoter adds one, in place of one with the same ID.
pub record Membership {S : Type 0} (raft : Raft S) : Type 0 where
  pub members : S → List Server
  pub configuration_is : (s : S) → raft.configuration s ≡ (ok (members s), s)
  pub removed :
      (id : List ℕ) (s s' : S)
      → raft.remove_server id s ≡ (ok tt, s')
      → members s' ≡ without id (members s)
  pub added :
      (id addr : List ℕ) (s s' : S)
      → raft.add_voter id addr s ≡ (ok tt, s')
      → members s' ≡ without id (members s) ++ ((record { id = id; address = addr }) ∷ [])

abbrev pub conflicts : List ℕ → List ℕ → Server → Bool
conflicts id addr srv = same_string srv.id id || same_string srv.address addr

abbrev pub is_same : List ℕ → List ℕ → Server → Bool
is_same id addr srv = same_string srv.id id && same_string srv.address addr

abbrev pub has_joined : List ℕ → List ℕ → List Server → Bool
has_joined id addr [] = false
has_joined id addr (srv ∷ rest) = is_same id addr srv || has_joined id addr rest

-- The first server that conflicts is the very one.
abbrev pub joined_first : List ℕ → List ℕ → List Server → Bool
joined_first id addr [] = false
joined_first id addr (srv ∷ rest) =
    if conflicts id addr srv then is_same id addr srv else joined_first id addr rest

-- A list of servers without those of another list that conflict with the new one.
abbrev pub without_conflicts : List ℕ → List ℕ → List Server → List Server → List Server
without_conflicts id addr [] servers = servers
without_conflicts id addr (srv ∷ rest) servers =
    if conflicts id addr srv
    then without_conflicts id addr rest (without srv.id servers)
    else without_conflicts id addr rest servers

module _ {S : Type 0} (raft : Raft S) (m : Membership raft) where
  -- One server of the loop, once the rest of the loop is done.
  one_server :
      (srv_id : List ℕ) (go_on : Exec S Bool) (after : List Server → List Server)
      (conflict same : Bool) (s s' : S) (b : Bool)
      → same ≡ false
      → ((t : S) → go_on t ≡ (ok b, s') → (b ≡ false) × (m.members s' ≡ after (m.members t)))
      → (if conflict
            then (if same then pure true else (raft.remove_server srv_id >> go_on))
            else go_on)
          s
        ≡ (ok b, s')
      → (b ≡ false)
        × (m.members s'
            ≡ (if conflict then after (without srv_id (m.members s)) else after (m.members s)))
  one_server srv_id go_on after false same s s' b other later runs = later s runs
  one_server srv_id go_on after true true s s' b other later runs = cc
  one_server srv_id go_on after true false s s' b other later runs =
      let (_, t, removes, goes) = >>=-ok_inv (raft.remove_server srv_id) (λ _. go_on) s s' b runs in
      let (no_stop, same_members) = later t goes in
      (no_stop, same_members ∙ ap after (m.removed srv_id s t removes))

  -- A loop that runs through has removed every conflicting server.
  removed_conflicts :
      (id addr : List ℕ) (servers : List Server) (s s' : S) (b : Bool)
      → has_joined id addr servers ≡ false
      → remove_conflicts raft id addr servers s ≡ (ok b, s')
      → (b ≡ false) × (m.members s' ≡ without_conflicts id addr servers (m.members s))
  unfolding remove_conflicts
  removed_conflicts id addr [] s s' b h runs = (cc, ap m.members (ap (λ o. o.1) (sym runs)))
  removed_conflicts id addr (srv ∷ rest) s s' b h runs =
      let other : is_same id addr srv ≡ false = ground arith in
      let others : has_joined id addr rest ≡ false = ground arith in
      one_server srv.id (remove_conflicts raft id addr rest) (without_conflicts id addr rest)
        (conflicts id addr srv) (is_same id addr srv) s s' b other
        (λ t goes. removed_conflicts id addr rest t s' b others goes) runs

  found_first :
      (id addr : List ℕ) (servers : List Server) (s : S)
      → joined_first id addr servers ≡ true
      → remove_conflicts raft id addr servers s ≡ (ok true, s)
  unfolding remove_conflicts
  found_first id addr [] s h = cc
  found_first id addr (srv ∷ rest) s h = ground (arith, found_first id addr rest s)

  -- Join that returns no error, of a server that is not in the cluster with that very address: the
  -- members are those of before, without every one that has its ID or its address, and the new server.
  pub join-members :
      (id addr : List ℕ) (s s' : S)
      → has_joined id addr (m.members s) ≡ false
      → join raft id addr s ≡ (ok tt, s')
      → m.members s'
        ≡ without id (without_conflicts id addr (m.members s) (m.members s))
          ++ ((record { id = id; address = addr }) ∷ [])
  unfolding join
  join-members id addr s s' h runs =
      let rest = sym (>>=-ok raft.configuration _ (m.configuration_is s)) ∙ runs in
      let (b, t, loops, adds) =
        >>=-ok_inv (remove_conflicts raft id addr (m.members s)) _ s s' tt rest in
      let (no_stop, kept) = removed_conflicts id addr (m.members s) s t b h loops in
      let add_ : raft.add_voter id addr t ≡ (ok tt, s') =
        subst (λ b. (if b then pure tt else raft.add_voter id addr) t ≡ (ok tt, s')) no_stop adds in
      m.added id addr t s' add_
      ∙ ap (λ l. without id l ++ ((record { id = id; address = addr }) ∷ [])) kept

  -- Join of a server that is in the cluster with that very address, before every server that shares its
  -- ID or its address alone, calls nothing and returns no error.
  pub join_again :
      (id addr : List ℕ) (s : S)
      → joined_first id addr (m.members s) ≡ true
      → join raft id addr s ≡ (ok tt, s)
  unfolding join
  join_again id addr s h =
      >>=-ok raft.configuration _ (m.configuration_is s)
      ∙ >>=-ok (remove_conflicts raft id addr (m.members s)) _
          (found_first id addr (m.members s) s h)
