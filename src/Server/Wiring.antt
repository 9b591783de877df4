-- ===== src/Server/Wiring.antt =====
-- internal/server/server.go: NewGRPCServer and newgrpcServer. The interceptors for tags and for logging
-- are parameters, and so are the views that are registered and the sampler for half of the traces.
use aphros.Base.{ℕ, Bool, true, List, [], ◌∷◌, ◌++◌, if◌then◌else◌}
use aphros.Base.Strings.{contains, bytes_of}
use Prim.Native.String.{String}
use aphros.Result.{Result, ok, err}

pub data Interceptor : Type 0 where
  ctx_tags zap_logging authentication : Interceptor

pub data ServerOption : Type 0 where
  stream_interceptor unary_interceptor : List Interceptor → ServerOption
  stats_handler : ServerOption
  given : ℕ → ServerOption

pub data Service : Type 0 where
  health_service log_service : Service

-- The server, its options in their order, and the service that the health service says is serving.
pub record GrpcServer : Type 0 where
  pub options : List ServerOption
  pub services : List Service
  pub serving : List String

abbrev pub chained : List Interceptor
chained = ctx_tags ∷ zap_logging ∷ authentication ∷ []

-- What is sampled: every span whose name has "Produce" in it, and of the others what `half` decides.
pub sampled : (List ℕ → Bool) → List ℕ → Bool
sampled half name = if contains name (bytes_of "Produce") then true else half name

-- newgrpcServer has no error. `registered` is what view.Register returns.
unfoldable pub new_grpc_server : Result (Unit {0}) → List ServerOption → Result GrpcServer
new_grpc_server (err x) opts = err x
new_grpc_server (ok _) opts = ok (record {
  options = opts ++ (stream_interceptor chained ∷ unary_interceptor chained ∷ stats_handler ∷ []);
  services = health_service ∷ log_service ∷ [];
  serving = "" ∷ [];
})
