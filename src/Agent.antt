-- ===== src/Agent.antt =====
-- internal/agent/agent.go: RPCAddr, the order in which New sets the parts up, and Shutdown. The parts
-- are parameters, over the states `S` of all of them.
pub mod Setup
use aphros.Base.{
  ℕ, ◌≡◌, refl, ap, ◌∙◌, Bool, true, false, Option, none, some, List, [], ◌∷◌, ◌++◌, if◌then◌else◌,
  arith,
}
use aphros.Result.{Error, panic, Result, ok, err, Exec, pure, ◌>>◌, >>=-ok, >>=-err}

-- `split` stands for net.SplitHostPort, and `decimal` for the %d of Sprintf; an error of `split` is
-- swallowed, and the address is then empty.
unfoldable pub rpc_addr : (List ℕ → Option (List ℕ)) → (ℕ → List ℕ) → List ℕ → ℕ → Result (List ℕ)
rpc_addr split decimal bind_addr rpc_port = elim (split bind_addr) [
  | none ↦ ok []
  | some host ↦ ok (host ++ (58 ∷ decimal rpc_port))
]

-- `signalled`: the channel `shutdowns` is closed; to close it again panics.
pub record Agent (S : Type 0) : Type 0 where
  pub shutdown_done : Bool
  pub signalled : Bool
  pub parts : S

module _ {S : Type 0} where
  -- The loops over the functions of New and of Shutdown: the first error ends them.
  unfoldable pub run_all : List (Exec S (Unit {0})) → Exec S (Unit {0})
  run_all [] = pure tt
  run_all (f ∷ fs) = do f; run_all fs

  unfoldable pub new :
      (setup_logger setup_mux setup_log setup_server setup_membership : Exec S (Unit {0}))
      → Exec S (Unit {0})
  new logger mux log server membership = run_all (logger ∷ mux ∷ log ∷ server ∷ membership ∷ [])

  module _ (leave close_log : Exec S (Unit {0})) (graceful_stop : S → S) where
    stop : Exec S (Unit {0})
    stop s = (ok tt, graceful_stop s)

    shut : Bool → Agent S → Result (Unit {0}) × Agent S
    shut true a = (err panic, record a { shutdown_done = true })
    shut false a =
        let (r, parts) = run_all (leave ∷ stop ∷ close_log ∷ []) a.parts in
        (r, record { shutdown_done = true; signalled = true; parts = parts })

    pub shutdown : Exec (Agent S) (Unit {0})
    shutdown a = if a.shutdown_done then (ok tt, a) else shut a.signalled a

    -- A Shutdown after a Shutdown returns no error and changes nothing, also where the first one failed.
    pub shutdown_twice : (a : Agent S) → shutdown (shutdown a).1 ≡ (ok tt, (shutdown a).1)
    unfolding shutdown shut
    shutdown_twice a = ground arith

    unit_result : (r : Result (Unit {0})) (s : S) → ((λ s. (r, s)) >> pure tt) s ≡ (r, s)
    unit_result (ok _) s = refl
    unit_result (err x) s = refl

    -- Shutdown of an agent that is up leaves the cluster, stops the server and closes the log, in that
    -- order, where leaving succeeds, and returns what the closing returns.
    pub shutdown_order :
        (s s₁ s₂ : S) (r : Result (Unit {0}))
        → leave s ≡ (ok tt, s₁)
        → close_log (graceful_stop s₁) ≡ (r, s₂)
        → shutdown (record { shutdown_done = false; signalled = false; parts = s })
          ≡ (r, record { shutdown_done = true; signalled = true; parts = s₂ })
    unfolding shutdown shut run_all stop
    shutdown_order s s₁ s₂ r left closed =
        ap
          (λ (o : Result (Unit {0}) × S).
            (o.0, record { shutdown_done = true; signalled = true; parts = o.1 }))
          (>>=-ok leave _ left
            ∙ ap (λ (o : Result (Unit {0}) × S). ((λ (t : S). o) >> pure tt) s₁) closed
            ∙ unit_result r s₂)

    -- Where leaving the cluster fails, Shutdown returns its error with the server still up and the log
    -- still open, and a second Shutdown returns no error and leaves them so.
    shutdown_abandoned :
        (s s₁ : S) (x : Error)
        → leave s ≡ (err x, s₁)
        → (shutdown (record { shutdown_done = false; signalled = false; parts = s })
            ≡ (err x, record { shutdown_done = true; signalled = true; parts = s₁ }))
          × (shutdown (record { shutdown_done = true; signalled = true; parts = s₁ })
              ≡ (ok tt, record { shutdown_done = true; signalled = true; parts = s₁ }))
    unfolding shutdown shut run_all
    shutdown_abandoned s s₁ x fails = (
      ap
          (λ (o : Result (Unit {0}) × S).
            (o.0, record { shutdown_done = true; signalled = true; parts = o.1 }))
          (>>=-err leave _ fails),
      refl,
    )

    served : Agent S → Result (Unit {0}) × S → Result (Unit {0}) × Agent S
    served a (ok _, s) = (ok tt, record a { parts = s })
    served a (err x, s) = (err x, (shutdown (record a { parts = s })).1)

    -- serve: where the multiplexer fails, the agent shuts down, and the error of that is dropped.
    unfoldable pub serve : Exec S (Unit {0}) → Exec (Agent S) (Unit {0})
    unfolding served
    serve mux a = served a (mux a.parts)

    -- A multiplexer that fails while the agent is up: serve returns its error, once the agent has left the
    -- cluster, stopped the server and closed the log, where leaving succeeds.
    pub serve_fails :
        (mux : Exec S (Unit {0})) (s s₁ s₂ s₃ : S) (x : Error) (r : Result (Unit {0}))
        → mux s ≡ (err x, s₁)
        → leave s₁ ≡ (ok tt, s₂)
        → close_log (graceful_stop s₂) ≡ (r, s₃)
        → serve mux (record { shutdown_done = false; signalled = false; parts = s })
          ≡ (err x, record { shutdown_done = true; signalled = true; parts = s₃ })
    unfolding serve served
    serve_fails mux s s₁ s₂ s₃ x r fails left closed =
        ap (served (record { shutdown_done = false; signalled = false; parts = s })) fails
        ∙ ap (λ (o : Result (Unit {0}) × Agent S). (err x, o.1))
            (shutdown_order s₁ s₂ s₃ r left closed)
