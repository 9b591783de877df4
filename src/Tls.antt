-- ===== src/Tls.antt =====
-- internal/config/tls.go. The parameters stand for what it calls of crypto/tls, os and crypto/x509,
-- `none` for an error of theirs.
use aphros.Base.{
  ℕ, ◌≡◌, Bool, true, false, Option, none, some, List, [], ◌∷◌, arith, if◌then◌else◌, ◌||◌,
}
use aphros.Result.{io_failure, bad_record, Result, ok, err}

pub record TlsConfig : Type 0 where
  pub cert_file : List ℕ
  pub key_file : List ℕ
  pub ca_file : List ℕ
  pub server_address : List ℕ
  pub server : Bool

-- tls.Config; `verifies_clients` is RequireAndVerifyClientCert, against NoClientCert.
pub record Made (Pair Pool : Type 0) : Type 0 where
  pub certificates : List Pair
  pub client_cas : Option Pool
  pub verifies_clients : Bool
  pub root_cas : Option Pool
  pub server_name : List ℕ

abbrev pub is_empty : List ℕ → Bool
is_empty [] = true
is_empty (b ∷ bs) = false

module _ {Pair Pool : Type 0} (load_pair : List ℕ → List ℕ → Option Pair)
    (read_file : List ℕ → Option (List ℕ)) (pool_of : List ℕ → Option Pool) where
  abbrev made_empty : Made Pair Pool
  made_empty = record {
    certificates = [];
    client_cas = none;
    verifies_clients = false;
    root_cas = none;
    server_name = [];
  }

  abbrev pub with_pair : Option Pair → Result (Made Pair Pool)
  with_pair none = err io_failure
  with_pair (some c) = ok (record made_empty { certificates = c ∷ [] })

  abbrev pub certified : TlsConfig → Result (Made Pair Pool)
  certified cfg =
      if is_empty cfg.cert_file || is_empty cfg.key_file
      then ok made_empty
      else with_pair (load_pair cfg.cert_file cfg.key_file)

  abbrev pub with_pool : TlsConfig → Made Pair Pool → Option Pool → Result (Made Pair Pool)
  with_pool cfg m none = err bad_record
  with_pool cfg m (some ca) = ok (
      if cfg.server
      then record m {
        client_cas = some ca;
        verifies_clients = true;
        server_name = cfg.server_address;
      }
      else record m { root_cas = some ca; server_name = cfg.server_address })

  abbrev pub with_file : TlsConfig → Made Pair Pool → Option (List ℕ) → Result (Made Pair Pool)
  with_file cfg m none = err io_failure
  with_file cfg m (some b) = with_pool cfg m (pool_of b)

  abbrev pub authorities : TlsConfig → Result (Made Pair Pool) → Result (Made Pair Pool)
  authorities cfg (err x) = err x
  authorities cfg (ok m) =
      if is_empty cfg.ca_file then ok m else with_file cfg m (read_file cfg.ca_file)

  unfoldable pub set_up_tls_config : TlsConfig → Result (Made Pair Pool)
  set_up_tls_config cfg = authorities cfg (certified cfg)

  -- A configuration that SetUpTLSConfig gives for a server verifies the clients exactly where a CA file
  -- is named, and then against that file's pool, and trusts no other root; one for a client never
  -- verifies clients.
  pub set_up_tls_config_verifies :
      (cfg : TlsConfig) (m : Made Pair Pool)
      → set_up_tls_config cfg ≡ ok m
      → (m.verifies_clients ≡ (if is_empty cfg.ca_file then false else cfg.server))
        × ((if cfg.server then m.root_cas else m.client_cas) ≡ none)
  unfolding set_up_tls_config
  set_up_tls_config_verifies cfg m runs = (ground arith, ground arith)
