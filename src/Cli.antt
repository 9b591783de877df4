-- ===== src/Cli.antt =====
-- cmd/aphros/main.go: setupConfig. `read_config` stands for viper's ReadInConfig, `get` for its
-- GetString, GetInt, GetStringSlice and GetBool, and `set_up` for config.SetUpTLSConfig.
pub mod Running
pub mod Flags
use aphros.Base.{
  ℕ, ◌≡◌, ◌∙◌, Bool, true, false, Option, none, some, List, [], if◌then◌else◌, ◌||◌, arith,
}
use Prim.Native.String.{String}
use aphros.Result.{Error, Result, ok, err}
use aphros.Tls.{TlsConfig, is_empty}

pub record Viper : Type 0 where
  pub get_string : String → List ℕ
  pub get_int : String → ℕ
  pub get_string_slice : String → List (List ℕ)
  pub get_bool : String → Bool

-- The configuration of the agent, with the TLS configurations that are made of the two of the files.
pub record Cfg (Tls : Type 0) : Type 0 where
  pub data_dir : List ℕ
  pub node_name : List ℕ
  pub bind_addr : List ℕ
  pub rpc_port : ℕ
  pub start_join_addrs : List (List ℕ)
  pub bootstrap : Bool
  pub acl_model_file : List ℕ
  pub acl_policy_file : List ℕ
  pub server_tls : Option Tls
  pub peer_tls : Option Tls

pub data ConfigRead : Type 0 where
  read_it not_found : ConfigRead
  unreadable : Error → ConfigRead

abbrev pub tls_files : Viper → String → String → String → Bool → TlsConfig
tls_files v cert key ca server = record {
  cert_file = v.get_string cert;
  key_file = v.get_string key;
  ca_file = v.get_string ca;
  server_address = [];
  server = server;
}

module _ {Tls : Type 0} (set_up : TlsConfig → Result Tls) where
  -- A TLS configuration where both files are named.
  abbrev pub made_tls : TlsConfig → Result (Option Tls)
  made_tls t =
      if is_empty t.cert_file || is_empty t.key_file
      then ok none
      else (elim (set_up t) [ ok made ↦ ok (some made) | err x ↦ err x ])

  abbrev pub with_tls : Cfg Tls → Result (Option Tls) → Result (Option Tls) → Result (Cfg Tls)
  with_tls c (err x) peer = err x
  with_tls c (ok server) (err x) = err x
  with_tls c (ok server) (ok peer) = ok (record c { server_tls = server; peer_tls = peer })

  abbrev pub named_values : Viper → Cfg Tls
  named_values v = record {
    data_dir = v.get_string "data-dir";
    node_name = v.get_string "node-name";
    bind_addr = v.get_string "bind-addr";
    rpc_port = v.get_int "rpc-port";
    start_join_addrs = v.get_string_slice "start-join-addrs";
    bootstrap = v.get_bool "bootstrap";
    acl_model_file = v.get_string "acl-mode-file";
    acl_policy_file = v.get_string "acl-policy-file";
    server_tls = none;
    peer_tls = none;
  }

  abbrev pub from_viper : Viper → Result (Cfg Tls)
  from_viper v =
      with_tls (named_values v)
        (made_tls
          (tls_files v "server-tls-cert-file" "server-tls-key-file" "server-tls-ca-file" true))
        (made_tls (tls_files v "peer-tls-cert-file" "peer-tls-key-file" "peer-tls-ca-file" false))

  -- A config file that is not there is no error.
  unfoldable pub setup_config : ConfigRead → Viper → Result (Cfg Tls)
  setup_config (unreadable x) v = err x
  setup_config read_it v = from_viper v
  setup_config not_found v = from_viper v

  -- What a configuration has of the settings, whatever becomes of the TLS files.
  pub record Keeps (v : Viper) (c : Cfg Tls) : Type 0 where
    pub data_dir_is : c.data_dir ≡ v.get_string "data-dir"
    pub node_name_is : c.node_name ≡ v.get_string "node-name"
    pub bind_addr_is : c.bind_addr ≡ v.get_string "bind-addr"
    pub rpc_port_is : c.rpc_port ≡ v.get_int "rpc-port"
    pub start_join_addrs_is : c.start_join_addrs ≡ v.get_string_slice "start-join-addrs"
    pub bootstrap_is : c.bootstrap ≡ v.get_bool "bootstrap"
    pub acl_model_file_is : c.acl_model_file ≡ v.get_string "acl-mode-file"
    pub acl_policy_file_is : c.acl_policy_file ≡ v.get_string "acl-policy-file"

  with_tls-Keeps :
      (v : Viper) (server peer : Result (Option Tls)) (c : Cfg Tls)
      → with_tls (named_values v) server peer ≡ ok c
      → Keeps v c
  with_tls-Keeps v (err x) peer c runs = cc
  with_tls-Keeps v (ok server) (err x) c runs = cc
  with_tls-Keeps v (ok server) (ok peer) c runs = record {
    data_dir_is = ground arith;
    node_name_is = ground arith;
    bind_addr_is = ground arith;
    rpc_port_is = ground arith;
    start_join_addrs_is = ground arith;
    bootstrap_is = ground arith;
    acl_model_file_is = ground arith;
    acl_policy_file_is = ground arith;
  }

  pub setup_config-Keeps :
      (got : ConfigRead) (v : Viper) (c : Cfg Tls) → setup_config got v ≡ ok c → Keeps v c
  unfolding setup_config
  setup_config-Keeps read_it v c runs = with_tls-Keeps v _ _ c runs
  setup_config-Keeps not_found v c runs = with_tls-Keeps v _ _ c runs
  setup_config-Keeps (unreadable x) v c runs = cc
