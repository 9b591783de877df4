-- ===== src/Cli/Flags.antt =====
-- cmd/aphros/main.go: setupFlags, and what setupConfig makes of the flags. `hostname` stands for
-- os.Hostname, `data_dir` for the path "aphros" in os.TempDir(), and `bind` for viper's BindPFlags.
use aphros.Base.{ℕ, ◌≡◌, refl, ◌∙◌, Bool, false, Option, none, some, List, [], ◌∷◌, if◌then◌else◌}
use Prim.Native.String.{String}
use aphros.Base.Strings.{bytes_of, same_name}
use aphros.Result.{Result, ok, err}
use aphros.Tls.{TlsConfig}
use aphros.Cli.{Viper, Cfg, ConfigRead, not_found, setup_config, setup_config-Keeps}

pub data Value : Type 0 where
  text : List ℕ → Value
  number : ℕ → Value
  texts : List (List ℕ) → Value
  switch : Bool → Value

pub record Flag : Type 0 where
  pub name : String
  pub default : Value
  pub usage : String

abbrev flag : String → Value → String → Flag
flag name default usage = record { name = name; default = default; usage = usage }

abbrev pub declared : List ℕ → List ℕ → List Flag
declared hostname data_dir =
    flag "config-file" (text []) "Path to config file."
    ∷ flag "data-dir" (text data_dir) "Directory to store log and Raft Data."
    ∷ flag "node-name" (text hostname) "Unique server ID."
    ∷ flag "bind-addr" (text (bytes_of "127.0.0.1:8401")) "Address to bind Serf on."
    ∷ flag "rpc-port" (number 8400) "Port for RPC clients (and Raft) connections."
    ∷ flag "start-join-addrs" (texts []) "Serf addresses to join."
    ∷ flag "bootstrap" (switch false) "Bootstrap the cluster."
    ∷ flag "acl-model-file" (text []) "Path to ACL model."
    ∷ flag "acl-policy-file" (text []) "Path to ACL policy."
    ∷ flag "server-tls-cert-file" (text []) "Path to server tls cert."
    ∷ flag "server-tls-key-file" (text []) "Path to server tls key."
    ∷ flag "server-tls-ca-file" (text []) "Path to server certificate authority."
    ∷ flag "peer-tls-cert-file" (text []) "Path to peer tls cert."
    ∷ flag "peer-tls-key-file" (text []) "Path to peer tls key."
    ∷ flag "peer-tls-ca-file" (text []) "Path to peer certificate authority."
    ∷ []

-- log.Fatal where there is no host name, and else the error of viper; the flags are declared first.
pub setup_flags : Result (List ℕ) → List ℕ → (List Flag → Result (Unit {0})) → Result (List Flag)
setup_flags (err x) data_dir bind = err x
setup_flags (ok hostname) data_dir bind =
    let flags = declared hostname data_dir in elim (bind flags) [ ok _ ↦ ok flags | err x ↦ err x ]

-- What viper documents of a name: a flag that the command line sets, and else the config file, and
-- else the default of the flag.
abbrev pub named : String → List Flag → Option Flag
named name [] = none
named name (f ∷ rest) = if same_name name f.name then some f else named name rest

abbrev pub first_of : Option Value → Option Value → Option Value
first_of (some x) later = some x
first_of none later = later

abbrev pub of_flag : Option Value → Option Value → Option Flag → Option Value
of_flag arg config none = config
of_flag arg config (some f) = first_of arg (first_of config (some f.default))

abbrev pub setting :
    List Flag → (String → Option Value) → (String → Option Value) → String → Option Value
setting flags args config name = of_flag (args name) (config name) (named name flags)

pub record Bound (v : Viper) (at : String → Option Value) : Type 0 where
  pub text_is : (name : String) (t : List ℕ) → at name ≡ some (text t) → v.get_string name ≡ t
  pub number_is : (name : String) (n : ℕ) → at name ≡ some (number n) → v.get_int name ≡ n
  pub texts_is :
      (name : String) (ts : List (List ℕ))
      → at name ≡ some (texts ts)
      → v.get_string_slice name ≡ ts
  pub switch_is : (name : String) (b : Bool) → at name ≡ some (switch b) → v.get_bool name ≡ b
  pub unset : (name : String) → at name ≡ none → v.get_string name ≡ []

abbrev pub nothing_set : String → Option Value
nothing_set name = none

module _ {Tls : Type 0} (set_up : TlsConfig → Result Tls) (hostname data_dir : List ℕ)
    (v : Viper) where
  -- Where neither the command line nor a config file sets anything, setupConfig succeeds: the node has
  -- the host's name, is bound to 127.0.0.1:8401 and serves on the port 8400, joins nobody, bootstraps
  -- nothing, and has no ACL files and no TLS.
  pub setup_config-defaults :
      Bound v (setting (declared hostname data_dir) nothing_set nothing_set)
      → setup_config set_up not_found v
        ≡ ok (record {
          data_dir = data_dir;
          node_name = hostname;
          bind_addr = bytes_of "127.0.0.1:8401";
          rpc_port = 8400;
          start_join_addrs = [];
          bootstrap = false;
          acl_model_file = [];
          acl_policy_file = [];
          server_tls = none;
          peer_tls = none;
        })
  unfolding setup_config
  setup_config-defaults bound = rw (bound.text_is "server-tls-cert-file" [] refl) (
      rw (bound.text_is "peer-tls-cert-file" [] refl) (
        rw (bound.text_is "data-dir" data_dir refl) (
          rw (bound.text_is "node-name" hostname refl) (
            rw (bound.text_is "bind-addr" (bytes_of "127.0.0.1:8401") refl) (
              rw (bound.number_is "rpc-port" 8400 refl) (
                rw (bound.texts_is "start-join-addrs" [] refl) (
                  rw (bound.switch_is "bootstrap" false refl) (
                    rw (bound.unset "acl-mode-file" refl)
                      (rw (bound.text_is "acl-policy-file" [] refl) refl)))))))))

  -- Whatever the command line sets, and whatever a config file sets but "acl-mode-file": a
  -- configuration that setupConfig gives has the policy file that "acl-policy-file" is set to, and an
  -- empty ACL model file, also where "acl-model-file" is set.
  pub setup_config-flags :
      (got : ConfigRead) (args config : String → Option Value) (policy : List ℕ) (c : Cfg Tls)
      → Bound v (setting (declared hostname data_dir) args config)
      → config "acl-mode-file" ≡ none
      → setting (declared hostname data_dir) args config "acl-policy-file" ≡ some (text policy)
      → setup_config set_up got v ≡ ok c
      → (c.acl_policy_file ≡ policy) × (c.acl_model_file ≡ [])
  setup_config-flags got args config policy c bound unset is runs =
      let keeps = setup_config-Keeps set_up got v c runs in
      (
        keeps.acl_policy_file_is ∙ bound.text_is "acl-policy-file" policy is,
        keeps.acl_model_file_is ∙ bound.unset "acl-mode-file" unset,
      )
