-- ===== src/Pipe/Connectors.antt =====
-- backend_factory.go: the stack of a backend, seen through what its layers do to a request.
use pucora_ce.Base.{List, [], ◌∷◌, ◌++◌, ◌≡◌, refl, ◌∙◌, ap, All}
use pucora_ce.Pipe.Layers.{
  Layer, through, stacked, two_phase, stacked-two_phase, inside, Keeps, Answers, stacked-Answers,
}
use pucora_ce.Pipe.Executor.{Backend, BackendLayers, new_backend_factory}

-- What the libraries document of their layers on one backend: each is a middleware, where a connector
-- answers by itself if the backend has its section. `serve` runs the proxy that a factory makes.
pub record BackendModel (L : BackendLayers) (S A : Type 0) : Type 0 where
  pub serve : L.BackendFactory → S → A × S
  pub pubsub : Layer S A
  pub amqp : Layer S A
  pub lambda : Layer S A
  pub soap : Layer S A
  pub grpc_client : Layer S A
  pub cel : Layer S A
  pub lua : Layer S A
  pub rate_limit : Layer S A
  pub circuit_breaker : Layer S A
  pub opencensus : Layer S A
  pub otel : Layer S A
  pub metrics : Layer S A
  pub pubsub_law : (f : L.BackendFactory) → serve (L.pubsub f) ≡ through pubsub (serve f)
  pub amqp_law : (f : L.BackendFactory) → serve (L.amqp f) ≡ through amqp (serve f)
  pub lambda_law : (f : L.BackendFactory) → serve (L.lambda f) ≡ through lambda (serve f)
  pub soap_law : (f : L.BackendFactory) → serve (L.soap f) ≡ through soap (serve f)
  pub grpc_client_law :
      (f : L.BackendFactory) → serve (L.grpc_client f) ≡ through grpc_client (serve f)
  pub cel_law : (f : L.BackendFactory) → serve (L.cel f) ≡ through cel (serve f)
  pub lua_law : (f : L.BackendFactory) → serve (L.lua f) ≡ through lua (serve f)
  pub rate_limit_law :
      (f : L.BackendFactory) → serve (L.rate_limit f) ≡ through rate_limit (serve f)
  pub circuit_breaker_law :
      (f : L.BackendFactory) → serve (L.circuit_breaker f) ≡ through circuit_breaker (serve f)
  pub opencensus_law :
      (f : L.BackendFactory) → serve (L.opencensus f) ≡ through opencensus (serve f)
  pub otel_law : (f : L.BackendFactory) → serve (L.otel f) ≡ through otel (serve f)
  pub metrics_law :
      (f : L.BackendFactory) → serve (L.metrics "backend" f) ≡ through metrics (serve f)

module _ (L : BackendLayers) {S A : Type 0} (M : BackendModel L S A)
    (executors : Backend → L.RequestExecutor) where
  -- The layers up to the circuit breaker, the outermost first.
  abbrev pub breaker : List (Layer S A)
  breaker = M.otel ∷ M.opencensus ∷ M.metrics ∷ M.circuit_breaker ∷ []

  -- The layers below it, around the HTTP client.
  abbrev pub connectors : List (Layer S A)
  connectors =
      M.rate_limit ∷ M.lua ∷ M.cel ∷ M.grpc_client ∷ M.soap ∷ M.lambda ∷ M.amqp ∷ M.pubsub ∷ []

  connectors_lem :
      M.serve (
        L.rate_limit (
          L.lua
            (L.cel (L.grpc_client (L.soap (L.lambda (L.amqp (L.pubsub (L.martian executors)))))))))
      ≡ stacked connectors (M.serve (L.martian executors))
  connectors_lem = inside M.serve L.rate_limit M.rate_limit M.rate_limit_law (
      inside M.serve L.lua M.lua M.lua_law (
        inside M.serve L.cel M.cel M.cel_law (
          inside M.serve L.grpc_client M.grpc_client M.grpc_client_law (
            inside M.serve L.soap M.soap M.soap_law (
              inside M.serve L.lambda M.lambda M.lambda_law (
                inside M.serve L.amqp M.amqp M.amqp_law (
                  inside M.serve L.pubsub M.pubsub M.pubsub_law {f = L.martian executors}
                    refl)))))))

  pub serve-stacked :
      M.serve (new_backend_factory L executors)
      ≡ stacked (breaker ++ connectors) (M.serve (L.martian executors))
  unfolding new_backend_factory
  serve-stacked = inside M.serve L.otel M.otel M.otel_law (
      inside M.serve L.opencensus M.opencensus M.opencensus_law (
        inside M.serve (L.metrics "backend") M.metrics M.metrics_law (
          inside M.serve L.circuit_breaker M.circuit_breaker M.circuit_breaker_law connectors_lem)))

  -- Where each library's layer is a middleware, a request goes through the layers one after another,
  -- with the circuit breaker before the rate limit, and this before the connectors of gRPC, SOAP,
  -- Lambda, AMQP and publish-subscribe in this order, up to the first that answers by itself or to the
  -- HTTP client, and the answer goes back through those that were passed, and no others.
  new_backend_factory-two_phase :
      (s : S)
      → M.serve (new_backend_factory L executors) s
        ≡ two_phase (breaker ++ connectors) (M.serve (L.martian executors)) s
  new_backend_factory-two_phase s =
      ap (λ f. f s) serve-stacked
      ∙ stacked-two_phase (breaker ++ connectors) (M.serve (L.martian executors)) s

  -- Where each library's layer is a middleware, a request that is turned down by the circuit breaker or
  -- a layer around it uses up nothing that these layers do not touch, such as the rate limit of the
  -- backend.
  pub new_backend_factory-quota :
      {Q : Type 0} (quota : S → Q) (s : S)
      → All (Keeps quota) breaker
      → Answers breaker s
      → quota (M.serve (new_backend_factory L executors) s).1 ≡ quota s
  new_backend_factory-quota quota s keep is_open =
      ap (λ f. quota (f s).1) serve-stacked
      ∙ stacked-Answers quota breaker connectors (M.serve (L.martian executors)) s keep is_open
