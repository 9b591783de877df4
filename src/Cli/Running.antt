-- ===== src/Cli/Running.antt =====
-- cmd/aphros/main.go: run, the life of the agent between its New and its Shutdown. `leave`,
-- `close_log` and `graceful_stop` stand for what Shutdown calls.
use aphros.Base.{◌≡◌, ap, ◌∙◌, false}
use aphros.Result.{Result, ok, Exec, ◌>>◌, >>=-ok}
use aphros.Agent.{Agent, shutdown, shutdown_order}
use aphros.Agent.Setup.{Parts, Config, new_agent}

module _ {S Tls : Type 0} (parts : Parts S Tls) (leave close_log : Exec S (Unit {0}))
    (graceful_stop : S → S) where
  abbrev pub shut_down : Exec S (Unit {0})
  shut_down s =
      let (r, a) =
        shutdown leave close_log graceful_stop
          (record { shutdown_done = false; signalled = false; parts = s }) in
      (r, a.parts)

  -- `until_signal` is what happens until SIGINT or SIGTERM comes.
  unfoldable pub run : (S → S) → Config Tls → Exec S (Unit {0})
  run until_signal c = do new_agent parts c; λ s. shut_down (until_signal s)

  -- An agent that starts, and can leave the cluster when the signal comes: run leaves the cluster, stops
  -- the server and closes the log, in that order, and returns what the closing returns.
  pub run_to_end :
      (until_signal : S → S) (c : Config Tls) (s s₁ s₂ s₃ : S) (r : Result (Unit {0}))
      → new_agent parts c s ≡ (ok tt, s₁)
      → leave (until_signal s₁) ≡ (ok tt, s₂)
      → close_log (graceful_stop s₂) ≡ (r, s₃)
      → run until_signal c s ≡ (r, s₃)
  unfolding run
  run_to_end until_signal c s s₁ s₂ s₃ r starts leaves closes =
      >>=-ok (new_agent parts c) _ starts
      ∙ ap (λ (x : Result (Unit {0}) × Agent S). (x.0, x.1.parts))
          (shutdown_order leave close_log graceful_stop (until_signal s₁) s₂ s₃ r leaves closes)
