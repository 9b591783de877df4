-- ===== src/Agent/Setup/Addresses.antt =====
-- The addresses under which an agent is reached.
use aphros.Base.{
  ℕ, ◌+◌, ◌≤◌, ◌≡◌, ◌≢◌, ap, ◌∙◌, Bool, false, List, [], ◌∷◌, ◌++◌, ◌==◌, if◌then◌else◌, arith,
}
use aphros.Result.{Error, ok, err, >>=-ok, >>=-err, lift}
use aphros.Agent.{new, run_all}
use aphros.Agent.Setup.{Config, Parts, listen_addr, setup_mux, new_agent}

-- The number of colons.
abbrev pub colons : List ℕ → ℕ
colons [] = 0
colons (b ∷ bs) = if b == 58 then 1 + colons bs else colons bs

abbrev pub in_brackets : List ℕ → Bool
in_brackets [] = false
in_brackets (b ∷ bs) = b == 91

colons-append : (xs ys : List ℕ) → colons (xs ++ ys) ≡ colons xs + colons ys
colons-append [] ys = omega arith
colons-append (b ∷ xs) ys = ground (arith, colons-append xs ys)

-- net.Listen refuses an address with more than one colon, unless its host is in brackets.
abbrev pub RefusesColons : {S Tls : Type 0} → Parts S Tls → Type 0
RefusesColons {S} parts =
    (addr : List ℕ) (s : S)
    → in_brackets addr ≡ false
    → 2 ≤ colons addr
    → (x : Error) × (s' : S) × (parts.listen addr s ≡ (err x, s'))

-- An agent whose bind address resolves to an address that is written with a colon, as every address of
-- IPv6 is, and not in brackets: New returns an error.
pub new_agent_ipv6 :
    {S Tls : Type 0} (parts : Parts S Tls) (c : Config Tls) (ip : List ℕ) (b port : ℕ) (s s₁ : S)
    → RefusesColons parts
    → parts.new_logger s ≡ (ok tt, s₁)
    → parts.resolve c.bind_addr ≡ ok (b ∷ ip, port)
    → 1 ≤ colons (b ∷ ip)
    → b ≢ 91
    → (x : Error) × (s₂ : S) × (new_agent parts c s ≡ (err x, s₂))
unfolding new_agent new run_all setup_mux
new_agent_ipv6 parts c ip b port s s₁ refuses logs resolves colon bare =
    let addr = listen_addr parts c (b ∷ ip, port) in
    let many : 2 ≤ colons addr =
      ground (arith, colons-append (b ∷ ip) (58 ∷ parts.decimal c.rpc_port)) in
    let (x, s₂, fails) = refuses addr s₁ (ground arith) many in
    let mux : setup_mux parts c s₁ ≡ (err x, s₂) =
      >>=-ok (lift (parts.resolve c.bind_addr)) _ (ap (λ r. (r, s₁)) resolves) ∙ fails in
    (x, s₂, >>=-ok parts.new_logger _ logs ∙ >>=-err (setup_mux parts c) _ mux)
