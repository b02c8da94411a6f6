-- ===== src/Pipe/Route.antt =====
-- executor.go with backend_factory.go, proxy_factory.go and handler_factory.go: the way of a request to
-- an endpoint with one backend, through the stacks of its handler, its proxy and its backend.
use pucora_ce.Base.{List, [], ◌∷◌, ◌++◌, ◌≡◌, sym, ◌∙◌, ap, All}
use pucora_ce.Base.Json.{Fields}
use pucora_ce.Pipe.Layers.{
  Layer, through, stacked, two_phase, stacked-two_phase, stacked-append, Keeps, Answers,
  stacked-Answers,
}
use pucora_ce.Pipe.Handler.{HandlerLayers, ProxyLayers, new_handler_factory, new_proxy_factory}
use pucora_ce.Pipe.Executor.{Backend, BackendLayers, new_backend_factory}
use pucora_ce.Pipe.Guards as Guards
use pucora_ce.Pipe.Guards.{HandlerModel, access, traffic}
use pucora_ce.Pipe.Proxies as Proxies
use pucora_ce.Pipe.Proxies.{ProxyModel, validation}
use pucora_ce.Pipe.Connectors as Connectors
use pucora_ce.Pipe.Connectors.{BackendModel, breaker, connectors}

-- The factories of a gateway, with the layers that executor.go puts around the proxy factory and the
-- handler factory.
pub record Factories : Type 1 where
  pub handler : HandlerLayers
  pub proxy : ProxyLayers
  pub backend : BackendLayers
  pub otel_handler : handler.HandlerFactory → handler.HandlerFactory
  pub otel_proxy : proxy.ProxyFactory → proxy.ProxyFactory
  pub executors : Backend → backend.RequestExecutor
  -- The backend factory of `executors` as the proxies take it.
  pub backends : proxy.BackendFactory
  pub extra : Fields

module _ (F : Factories) where
  abbrev pub handlers : F.handler.HandlerFactory
  handlers = F.otel_handler (new_handler_factory F.handler F.extra)

  abbrev pub proxies : F.proxy.ProxyFactory
  proxies = F.otel_proxy (new_proxy_factory F.proxy F.backends)

-- What the libraries document: the layers are middlewares, the handler of an endpoint asks its proxy,
-- and the default proxy of one backend is a stack of middlewares around the backend's.
pub record RouteModel (F : Factories) (S A : Type 0) : Type 0 where
  pub handler : HandlerModel F.handler S A
  pub proxy : ProxyModel F.proxy S A
  pub backend : BackendModel F.backend S A
  pub otel_handler : Layer S A
  pub otel_proxy : Layer S A
  pub endpoint : Layer S A
  pub merging : List (Layer S A)
  pub otel_handler_law :
      (f : F.handler.HandlerFactory)
      → handler.serve (F.otel_handler f) ≡ through otel_handler (handler.serve f)
  pub otel_proxy_law :
      (f : F.proxy.ProxyFactory) → proxy.serve (F.otel_proxy f) ≡ through otel_proxy (proxy.serve f)
  pub endpoint_law :
      handler.serve F.handler.custom_error_handler ≡ through endpoint (proxy.serve (proxies F))
  pub merging_law :
      proxy.serve (F.proxy.default_factory F.backends)
      ≡ stacked merging (backend.serve (new_backend_factory F.backend F.executors))

module _ (F : Factories) {S A : Type 0} (M : RouteModel F S A) where
  -- The layers up to the schema of the request, and those below it, the outermost first.
  abbrev pub entrance : List (Layer S A)
  entrance =
      M.otel_handler
      ∷ (access F.handler M.handler F.extra
          ++ (traffic F.handler M.handler F.extra
              ++ (M.endpoint ∷ M.otel_proxy ∷ validation F.proxy M.proxy F.backends)))

  abbrev pub departure : List (Layer S A)
  departure =
      M.proxy.shadow
      ∷ (M.merging
          ++ (breaker F.backend M.backend F.executors
              ++ connectors F.backend M.backend F.executors))

  abbrev pub client : S → A × S
  client = M.backend.serve (F.backend.martian F.executors)

  backend-stacked :
      M.proxy.serve (F.proxy.default_factory F.backends)
      ≡ stacked
          (M.merging
            ++ (breaker F.backend M.backend F.executors
                ++ connectors F.backend M.backend F.executors))
          client
  backend-stacked =
      M.merging_law
      ∙ ap (stacked M.merging) (Connectors.serve-stacked F.backend M.backend F.executors)
      ∙ sym (stacked-append M.merging _ client)

  proxies-stacked :
      M.proxy.serve (proxies F)
      ≡ stacked (M.otel_proxy ∷ validation F.proxy M.proxy F.backends) (stacked departure client)
  proxies-stacked =
      M.otel_proxy_law (new_proxy_factory F.proxy F.backends)
      ∙ ap (through M.otel_proxy) (
          Proxies.serve-stacked F.proxy M.proxy F.backends
          ∙ stacked-append (validation F.proxy M.proxy F.backends) (M.proxy.shadow ∷ []) _
          ∙ ap
              (λ next.
                stacked (validation F.proxy M.proxy F.backends) (through M.proxy.shadow next))
              backend-stacked)

  handlers-stacked : M.handler.serve (handlers F) ≡ stacked entrance (stacked departure client)
  handlers-stacked =
      M.otel_handler_law (new_handler_factory F.handler F.extra)
      ∙ ap (through M.otel_handler) (
          Guards.serve-stacked F.handler M.handler F.extra
          ∙ ap (stacked (access F.handler M.handler F.extra ++ traffic F.handler M.handler F.extra))
              (M.endpoint_law ∙ ap (through M.endpoint) proxies-stacked))

  -- Where the layers are middlewares, the handler of an endpoint asks its proxy, and the default proxy of
  -- one backend is a stack of middlewares around the backend's, a request goes through the layers of
  -- the handler, of the proxy and of the backend one after another: those that decide who asks before
  -- the rate limits of the endpoint, these before the schema of the request, this before the shadow
  -- backends, and the circuit breaker before the rate limit of the backend and the connectors. It goes
  -- up to the first that answers by itself or to the HTTP client, and the answer goes back through
  -- those that were passed, and no others.
  pub handlers-two_phase :
      (s : S) → M.handler.serve (handlers F) s ≡ two_phase (entrance ++ departure) client s
  handlers-two_phase s =
      ap (λ f. f s) (handlers-stacked ∙ sym (stacked-append entrance departure client))
      ∙ stacked-two_phase (entrance ++ departure) client s

  -- Under the same conditions a request that is turned down by a layer up to the schema of the request
  -- uses up nothing that these layers do not touch, such as the calls of the shadow backends and of
  -- the backend.
  pub handlers-untouched :
      {Q : Type 0} (view : S → Q) (s : S)
      → All (Keeps view) entrance
      → Answers entrance s
      → view (M.handler.serve (handlers F) s).1 ≡ view s
  handlers-untouched view s keep turned_down =
      ap (λ f. view (f s).1) (handlers-stacked ∙ sym (stacked-append entrance departure client))
      ∙ stacked-Answers view entrance departure client s keep turned_down
