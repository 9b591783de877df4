-- ===== src/Resolver.antt =====
-- internal/loadbalance/resolver.go: what ResolveNow makes of the answer to GetServers, for the picker.
use aphros.Base.{
  ℕ, ◌+◌, ◌≡◌, refl, ap, subst, ◌∙◌, Bool, true, false, ◌||◌, Option, none, some, List, [], ◌∷◌,
  arith, Bool-cases, inl, inr,
}
use aphros.Base.Strings.{same_string, same_string→≡, contains}
use aphros.Result.{Error, Result, ok, err, >>=-ok}
use aphros.Picker.{Picker, build, pick, marked, leader_of, produce_name, build_lem, pick-leader}
use aphros.Cluster.{Server, ServerInfo, Raft, infos, get_servers}
use aphros.Cluster.Servers.{Membership}

-- The addresses last given to clientConn.UpdateState, each with its attribute `is_leader`, and the
-- number of errors logged.
pub record Resolver : Type 0 where
  pub addresses : Option (List (List ℕ × Bool))
  pub errors : ℕ

abbrev pub addresses_of : List ServerInfo → List (List ℕ × Bool)
addresses_of [] = []
addresses_of (i ∷ rest) = (i.rpc_addr, i.is_leader) ∷ addresses_of rest

-- `none` is an error of the call.
pub resolve_now : Option (List ServerInfo) → Resolver → Resolver
resolve_now none r = record r { errors = r.errors + 1 }
resolve_now (some servers) r = record r { addresses = some (addresses_of servers) }

-- The name of the scheme and of the picker, "aphros".
abbrev pub scheme : List ℕ
scheme = 97 ∷ 112 ∷ 104 ∷ 114 ∷ 111 ∷ 115 ∷ []

-- Build, given the error of grpc.NewClient, if any, and the answer of the first GetServers: the resolver
-- that is returned has resolved once.
unfoldable pub build_resolver :
    Option Error → Option (List ServerInfo) → Resolver → Result (Unit {0}) × Resolver
build_resolver (some x) answer r = (err x, r)
build_resolver none answer r = (ok tt, resolve_now answer r)

-- Close, given the error of closing the connection, if any.
unfoldable pub close_resolver : Option Error → Resolver → Resolver
close_resolver none r = r
close_resolver (some x) r = record r { errors = r.errors + 1 }

-- A resolver, as calls of ResolveNow are answered.
pub resolve_all : List (Option (List ServerInfo)) → Resolver → Resolver
resolve_all [] r = r
resolve_all (answer ∷ answers) r = resolve_all answers (resolve_now answer r)

-- The last answer that was no error.
abbrev pub last_answer :
    List (Option (List ServerInfo)) → Option (List (List ℕ × Bool)) → Option (List (List ℕ × Bool))
last_answer [] old = old
last_answer (none ∷ answers) old = last_answer answers old
last_answer (some servers ∷ answers) old = last_answer answers (some (addresses_of servers))

abbrev pub failures : List (Option (List ServerInfo)) → ℕ
failures [] = 0
failures (none ∷ answers) = 1 + failures answers
failures (some servers ∷ answers) = failures answers

resolve_all_lem :
    (answers : List (Option (List ServerInfo))) (r : Resolver)
    → ((resolve_all answers r).addresses ≡ last_answer answers r.addresses)
      × ((resolve_all answers r).errors ≡ r.errors + failures answers)
unfolding resolve_all resolve_now
resolve_all_lem [] r = (refl, omega arith)
resolve_all_lem (none ∷ answers) r =
    let (addresses, errors) = resolve_all_lem answers (record r { errors = r.errors + 1 }) in
    (addresses, omega (arith, errors))
resolve_all_lem (some servers ∷ answers) r =
    resolve_all_lem answers (record r { addresses = some (addresses_of servers) })

-- A resolver that Build returned, once calls of ResolveNow were answered: it has the addresses of the
-- last answer that was no error, Build's own included, or those that it had before Build; and it has
-- logged one error for each answer that was one.
pub build_then_resolve :
    (first : Option (List ServerInfo)) (answers : List (Option (List ServerInfo))) (r r' : Resolver)
    → build_resolver none first r ≡ (ok tt, r')
    → ((resolve_all answers r').addresses ≡ last_answer (first ∷ answers) r.addresses)
      × ((resolve_all answers r').errors ≡ r.errors + failures (first ∷ answers))
unfolding build_resolver
build_then_resolve first answers r r' builds =
    let same : resolve_now first r ≡ r' = ap (λ o. o.1) builds in
    subst
      (λ t.
        ((resolve_all answers t).addresses ≡ last_answer (first ∷ answers) r.addresses)
        × ((resolve_all answers t).errors ≡ r.errors + failures (first ∷ answers)))
      same (unfold resolve_all in resolve_all_lem (first ∷ answers) r)

abbrev pub has_address : List ℕ → List Server → Bool
has_address leader [] = false
has_address leader (srv ∷ rest) = same_string leader srv.address || has_address leader rest

leader_kept :
    (leader : List ℕ) (servers : List Server)
    → leader_of (addresses_of (infos leader servers)) (some leader) ≡ some leader
unfolding infos
leader_kept leader [] = refl
leader_kept leader (srv ∷ rest) = elim (Bool-cases (same_string leader srv.address)) [
  | inl here ↦
      let same = same_string→≡ leader srv.address here in ground (arith, leader_kept leader rest)
  | inr other ↦ ground (arith, leader_kept leader rest)
]

leader_of-infos :
    (leader : List ℕ) (servers : List Server) (old : Option (List ℕ))
    → has_address leader servers ≡ true
    → leader_of (addresses_of (infos leader servers)) old ≡ some leader
unfolding infos
leader_of-infos leader [] old h = cc
leader_of-infos leader (srv ∷ rest) old h = elim (Bool-cases (same_string leader srv.address)) [
  | inl here ↦
      let same = same_string→≡ leader srv.address here in ground (arith, leader_kept leader rest)
  | inr other ↦
      let later : has_address leader rest ≡ true = ground arith in
      ground (arith, leader_of-infos leader rest old later)
]

-- With the leader among the members, GetServers succeeds, the resolver takes its answer, and a picker
-- built of those addresses, all of them ready, gives the leader for every method that produces.
pub produce_reaches_leader :
    {S : Type 0} (raft : Raft S) (m : Membership raft) (s : S) (r : Resolver) (p : Picker (List ℕ))
    (method : List ℕ)
    → contains method produce_name ≡ true
    → has_address (raft.leader s) (m.members s) ≡ true
    → (servers : List ServerInfo) × (addresses : List (List ℕ × Bool)) × (get_servers raft s
        ≡ (ok servers, s))
      × ((resolve_now (some servers) r).addresses ≡ some addresses)
      × ((pick method (build (marked addresses) p).1).0 ≡ some (raft.leader s))
unfolding get_servers resolve_now
produce_reaches_leader raft m s r p method produces present =
    let servers = infos (raft.leader s) (m.members s) in
    (
      servers,
      addresses_of servers,
      >>=-ok raft.configuration _ (m.configuration_is s),
      refl,
      ap (λ (o : Picker (List ℕ)). (pick method o).0)
            (ap (λ o. o.1) (build_lem (addresses_of servers) p))
          ∙ ap (λ o. o.0) (pick-leader method _ (inl produces))
          ∙ leader_of-infos (raft.leader s) (m.members s) p.leader present,
    )
