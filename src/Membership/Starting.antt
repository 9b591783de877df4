-- ===== src/Membership/Starting.antt =====
-- internal/discovery/membership.go: New, setupSerf, Members and Leave. `Serf` stands for what they call
-- of net and hashicorp/serf, over the states `S` of a cluster's node.
use aphros.Base.{ℕ, ◌≡◌, ap, ◌∙◌, Option, none, some, List}
use aphros.Result.{Error, Result, ok, err, Exec, pure, lift, modify, ◌>>=◌, ◌>>◌, >>=-ok}
use aphros.Membership.{Member}

pub record Config : Type 0 where
  pub node_name : List ℕ
  pub bind_addr : List ℕ
  pub rpc_addr_tag : List ℕ
  pub start_join_addrs : Option (List (List ℕ))

-- serf.Config, as far as setupSerf sets it.
pub record SerfConfig : Type 0 where
  pub bind_addr : List ℕ
  pub bind_port : ℕ
  pub rpc_addr_tag : List ℕ
  pub node_name : List ℕ

-- `start_handler` is eventHandler in another goroutine.
pub record Serf (S : Type 0) : Type 0 where
  pub resolve : List ℕ → Result (List ℕ × ℕ)
  pub create : SerfConfig → Exec S (Unit {0})
  pub start_handler : S → S
  pub join : List (List ℕ) → Exec S (Unit {0})
  pub members : S → List Member
  pub leave : Exec S (Unit {0})

module _ {S : Type 0} (serf : Serf S) where
  abbrev pub serf_config : Config → List ℕ × ℕ → SerfConfig
  serf_config c (ip, port) = record {
    bind_addr = ip;
    bind_port = port;
    rpc_addr_tag = c.rpc_addr_tag;
    node_name = c.node_name;
  }

  -- The first node of a cluster has nobody to join.
  pub join_start : Option (List (List ℕ)) → Exec S (Unit {0})
  join_start none = pure tt
  join_start (some addrs) = serf.join addrs

  unfoldable pub setup_serf : Config → Exec S (Unit {0})
  setup_serf c = do
    addr ← lift (serf.resolve c.bind_addr)
    serf.create (serf_config c addr)
    modify serf.start_handler
    join_start c.start_join_addrs

  unfoldable pub new : Config → Exec S (Unit {0})
  new c = setup_serf c

  pub members : S → List Member
  members = serf.members

  pub leave : Exec S (Unit {0})
  leave = serf.leave

  -- Where the node starts but cannot join the others, New returns the error of the Join, and Serf and its
  -- handler, which it started, run on.
  pub new_without_join :
      (c : Config) (ip : List ℕ) (port : ℕ) (addrs : List (List ℕ)) (x : Error) (s s₁ s₂ : S)
      → serf.resolve c.bind_addr ≡ ok (ip, port)
      → serf.create (serf_config c (ip, port)) s ≡ (ok tt, s₁)
      → c.start_join_addrs ≡ some addrs
      → serf.join addrs (serf.start_handler s₁) ≡ (err x, s₂)
      → new c s ≡ (err x, s₂)
  unfolding new setup_serf join_start
  new_without_join c ip port addrs x s s₁ s₂ resolves creates others fails =
      >>=-ok (lift (serf.resolve c.bind_addr)) _ (ap (λ r. (r, s)) resolves)
      ∙ >>=-ok (serf.create (serf_config c (ip, port))) _ creates
      ∙ ap (λ o. join_start o (serf.start_handler s₁)) others
      ∙ fails
