-- ===== src/Pipe/Executor.antt =====
-- backend_factory.go: the layers of the HTTP client and of the request executor of a backend, and
-- the stack of the backend factory.
use pucora_ce.Base.{String, Bool, true, is_some, ◌≡◌}
use pucora_ce.Base.{ap, if◌then◌else◌}
use pucora_ce.Base.Json.{Fields, get}

-- What the executor reads of `config.Backend`; a nil map has no entries.
pub record Backend : Type 0 where
  pub url_pattern : String
  pub extra_config : Fields

-- The client and executor layers of the libraries. `backend_tls` is
-- `newHTTPClientWithBackendTLS`.
pub record ClientLayers : Type 1 where
  pub ClientFactory : Type 0
  pub RequestExecutor : Type 0
  pub oauth2_namespace : String
  pub new_http_client : ClientFactory
  pub backend_tls : Backend → ClientFactory → ClientFactory
  pub no_redirect : Backend → ClientFactory → ClientFactory
  pub ntlm : Backend → ClientFactory → ClientFactory
  pub oauth2 : Backend → ClientFactory
  pub http_cache : Backend → ClientFactory → ClientFactory
  pub otel : ClientFactory → Backend → ClientFactory
  pub opencensus : ClientFactory → Backend → RequestExecutor
  pub gcp_auth : Backend → RequestExecutor → RequestExecutor
  pub aws_sigv4 : Backend → RequestExecutor → RequestExecutor

module _ (L : ClientLayers) where
  has_oauth2 : Backend → Bool
  has_oauth2 cfg = is_some (get L.oauth2_namespace cfg.extra_config)

  -- The client before the cache.
  base_client : Backend → L.ClientFactory
  unfolding has_oauth2
  base_client cfg =
      let client = L.backend_tls cfg L.new_http_client in
      let client = L.no_redirect cfg client in
      let client = L.ntlm cfg client in if has_oauth2 cfg then L.oauth2 cfg else client

  -- `newRequestExecutorFactory`, without the plugin loader around it.
  unfoldable pub request_executor : Backend → L.RequestExecutor
  unfolding base_client
  request_executor cfg =
      let client = L.otel (L.http_cache cfg (base_client cfg)) cfg in
      L.aws_sigv4 cfg (L.gcp_auth cfg (L.opencensus client cfg))

base_client_of_oauth2 :
    (L : ClientLayers) (cfg : Backend)
    (tls redirect ntlm : Backend → L.ClientFactory → L.ClientFactory)
    → is_some (get L.oauth2_namespace cfg.extra_config) ≡ true
    → base_client (record L { backend_tls = tls; no_redirect = redirect; ntlm = ntlm }) cfg
      ≡ base_client L cfg
unfolding base_client
base_client_of_oauth2 L cfg tls redirect ntlm h = rw h

-- A backend with client credentials gets the client of that library alone: whatever the TLS, the
-- redirect and the NTLM layers do, they have no effect on its requests.
pub request_executor_of_oauth2 :
    (L : ClientLayers) (cfg : Backend)
    (tls redirect ntlm : Backend → L.ClientFactory → L.ClientFactory)
    → is_some (get L.oauth2_namespace cfg.extra_config) ≡ true
    → request_executor (record L { backend_tls = tls; no_redirect = redirect; ntlm = ntlm }) cfg
      ≡ request_executor L cfg
unfolding request_executor
request_executor_of_oauth2 L cfg tls redirect ntlm h =
    ap
      (λ client.
        L.aws_sigv4 cfg (L.gcp_auth cfg (L.opencensus (L.otel (L.http_cache cfg client) cfg) cfg)))
      (base_client_of_oauth2 L cfg tls redirect ntlm h)

-- The layers of `internalNewBackendFactory` above the base, the innermost first, and the base.
pub record BackendLayers : Type 1 where
  pub RequestExecutor : Type 0
  pub BackendFactory : Type 0
  pub martian : (Backend → RequestExecutor) → BackendFactory
  pub pubsub : BackendFactory → BackendFactory
  pub amqp : BackendFactory → BackendFactory
  pub lambda : BackendFactory → BackendFactory
  pub soap : BackendFactory → BackendFactory
  pub grpc_client : BackendFactory → BackendFactory
  pub cel : BackendFactory → BackendFactory
  pub lua : BackendFactory → BackendFactory
  pub rate_limit : BackendFactory → BackendFactory
  pub circuit_breaker : BackendFactory → BackendFactory
  pub metrics : String → BackendFactory → BackendFactory
  pub opencensus : BackendFactory → BackendFactory
  pub otel : BackendFactory → BackendFactory

-- `internalNewBackendFactory`; the function that it returns logs and calls this factory.
unfoldable pub new_backend_factory :
    (L : BackendLayers) → (Backend → L.RequestExecutor) → L.BackendFactory
new_backend_factory L executors =
    let bf = L.martian executors in
    let bf = L.pubsub bf in
    let bf = L.amqp bf in
    let bf = L.lambda bf in
    let bf = L.soap bf in
    let bf = L.grpc_client bf in
    let bf = L.cel bf in
    let bf = L.lua bf in
    let bf = L.rate_limit bf in
    let bf = L.circuit_breaker bf in
    let bf = L.metrics "backend" bf in let bf = L.opencensus bf in L.otel bf

-- Where the circuit breaker is open, so that its layer does not use what it wraps, none of the
-- layers below it has any effect: neither the rate limit nor any of the connectors.
new_backend_factory_open :
    (L : BackendLayers) (executors others : Backend → L.RequestExecutor)
    (martian : (Backend → L.RequestExecutor) → L.BackendFactory)
    (pubsub amqp lambda soap grpc_client cel lua rate_limit : L.BackendFactory → L.BackendFactory)
    → ((f g : L.BackendFactory) → L.circuit_breaker f ≡ L.circuit_breaker g)
    → new_backend_factory
        (record L {
          martian = martian;
          pubsub = pubsub;
          amqp = amqp;
          lambda = lambda;
          soap = soap;
          grpc_client = grpc_client;
          cel = cel;
          lua = lua;
          rate_limit = rate_limit;
        })
        others
      ≡ new_backend_factory L executors
unfolding new_backend_factory
new_backend_factory_open L executors others martian pubsub amqp lambda soap grpc_client cel lua
      rate_limit is_open =
    ap (λ f. L.otel (L.opencensus (L.metrics "backend" f))) (is_open _ _)
