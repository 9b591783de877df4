-- ===== src/Tests/Requests.antt =====
-- Requests to the HTTP server, the flags of the command, and calls of the gRPC server, at concrete
-- inputs.
use aphros.Base.{
  ℕ, ◌≡◌, refl, ap, Bool, true, false, Option, none, some, List, [], ◌∷◌, ◌++◌, if◌then◌else◌,
}
use aphros.Base.Strings.{same_name, bytes_of}
use Prim.Native.String.{String}
use aphros.Result.{ok, err, out_of_range}
use aphros.Http.{success, bad_request, not_found}
use aphros.Http.Routing.{Method, post, get, Request, first_route, Json, serve_all}
use aphros.Http.Routing.Refining.{holding, serve_all_lem}
use aphros.Cli.{Viper, Cfg, not_found as no_file, setup_config}
use aphros.Cli.Flags.{
  Value, text, number, texts, switch, Bound, setting, declared, nothing_set, setup_config-flags,
}
use aphros.Log.Contents.{IsLog}
use aphros.Api.OffsetError.{Attach, Appended}
use aphros.Server.{consume}
use aphros.Server.Authentication.{Peer, tls_info, authenticate, consume_call}
use aphros.Server.Node.{node_log}
use aphros.Server.Statuses.{Conversion, Promised, delivered, consume_call-Promised}
use aphros.Tests.Samples.{plain, note, open_log}
use aphros.Tests.Facts.{open_log-IsLog}

-- Numbers and values as they are.
abbrev json : Json
json = record {
  decode_produce = λ b. some (record { value = b; offset = 0 });
  encode_offset = λ n. some (n ∷ []);
  decode_consume = λ b. elim b [ [] ↦ none | n ∷ rest ↦ some n ];
  encode_record = λ r. some r.value;
}

abbrev asked : Method → List ℕ → List ℕ → Request
asked m p b = record { method = m; path = p; body = b }

serve_all_lem_example :
    serve_all first_route
      (λ req. bad_request)
      json
      (asked post (47 ∷ []) (7 ∷ [])
        ∷ asked get (47 ∷ []) (0 ∷ [])
        ∷ asked get (47 ∷ []) (1 ∷ [])
        ∷ asked get (48 ∷ []) (0 ∷ [])
        ∷ [])
      (holding [] [])
    ≡ (
      success (0 ∷ []) ∷ success (7 ∷ []) ∷ not_found ∷ bad_request ∷ [],
      holding [] ((7 ∷ []) ∷ []),
    )
serve_all_lem_example =
    serve_all_lem first_route (λ req. bad_request) json (λ rs m p. refl)
      (asked post (47 ∷ []) (7 ∷ [])
        ∷ asked get (47 ∷ []) (0 ∷ [])
        ∷ asked get (47 ∷ []) (1 ∷ [])
        ∷ asked get (48 ∷ []) (0 ∷ [])
        ∷ [])
      [] []

-- The settings as viper gives them, with the zero value for another type.
abbrev text_of : Option Value → List ℕ
text_of (some (text t)) = t
text_of _ = []

abbrev number_of : Option Value → ℕ
number_of (some (number n)) = n
number_of _ = 0

abbrev texts_of : Option Value → List (List ℕ)
texts_of (some (texts ts)) = ts
texts_of _ = []

abbrev switch_of : Option Value → Bool
switch_of (some (switch b)) = b
switch_of _ = false

abbrev viper : (String → Option Value) → Viper
viper at = record {
  get_string = λ name. text_of (at name);
  get_int = λ name. number_of (at name);
  get_string_slice = λ name. texts_of (at name);
  get_bool = λ name. switch_of (at name);
}

viper-Bound : (at : String → Option Value) → Bound (viper at) at
viper-Bound at = record {
  text_is = λ name t is. ap text_of is;
  number_is = λ name n is. ap number_of is;
  texts_is = λ name ts is. ap texts_of is;
  switch_is = λ name b is. ap switch_of is;
  unset = λ name is. ap text_of is;
}

-- A command line that names a model and a policy.
abbrev acl_args : String → Option Value
acl_args name =
    if same_name name "acl-model-file"
    then some (text (3 ∷ []))
    else if same_name name "acl-policy-file"
    then some (text (4 ∷ []))
    else none

abbrev acl_settings : String → Option Value
acl_settings = setting (declared (1 ∷ []) (2 ∷ [])) acl_args nothing_set

configured :
    (c : Cfg (List ℕ)) × (setup_config (λ t. ok (7 ∷ [])) no_file (viper acl_settings) ≡ ok c)
configured = (
  record {
    data_dir = 2 ∷ [];
    node_name = 1 ∷ [];
    bind_addr = bytes_of "127.0.0.1:8401";
    rpc_port = 8400;
    start_join_addrs = [];
    bootstrap = false;
    acl_model_file = [];
    acl_policy_file = 4 ∷ [];
    server_tls = none;
    peer_tls = none;
  },
  unfold setup_config in refl,
)

setup_config-flags_example :
    (configured.0.acl_policy_file ≡ 4 ∷ []) × (configured.0.acl_model_file ≡ [])
setup_config-flags_example =
    setup_config-flags (λ t. ok (7 ∷ [])) (1 ∷ []) (2 ∷ []) (viper acl_settings) no_file acl_args
      nothing_set (4 ∷ []) configured.0 (viper-Bound acl_settings) refl refl configured.1

-- Details that can always be attached.
abbrev attach : Attach
attach s m = some (record s { details = s.details ++ (m ∷ []) })

attach-Appended : Appended attach
attach-Appended s s' m is = cc

abbrev root_peer : Peer
root_peer = record { auth_info = some (tls_info (("root" ∷ []) ∷ [])) }

-- gRPC's conversion: an error without a status gets the code 2.
abbrev grpc : Conversion
grpc = record {
  convert = λ own text. elim own [
    | some st ↦ st
    | none ↦ record { code = 2; message = text; details = [] }
  ];
  takes_own = λ st text. refl;
}

consume_call-Promised_example :
    Promised
      (λ n. n ∷ [])
      attach
      (λ x. [])
      grpc
      "root"
      true
      (err (out_of_range 5))
      (delivered
        (λ n. n ∷ [])
        attach
        (λ x. [])
        grpc
        "root"
        consume
        (consume_call (node_log plain) (λ s a. true) (some root_peer) 5 open_log).0)
    × IsLog plain
        (consume_call (node_log plain) (λ s a. true) (some root_peer) 5 open_log).1
        0
        ((note 0 ∷ []) ∷ [])
consume_call-Promised_example =
    consume_call-Promised (λ n. n ∷ []) attach (λ x. []) grpc plain (λ s a. true) (some root_peer)
      "root" open_log 0 5 ((note 0 ∷ []) ∷ []) open_log-IsLog (unfold authenticate in refl)
      attach-Appended
