-- ===== src/Pipe/Factories.antt =====
-- backend_factory.go, proxy_factory.go, handler_factory.go and executor.go: the functions that the
-- default factories return. Each logs what it builds and calls the stack below it.
use pucora_ce.Base.{String, ◌<>◌}
use pucora_ce.Base.Json.{Fields}
use pucora_ce.Pipe.Executor.{
  Backend, ClientLayers, BackendLayers, request_executor, new_backend_factory,
}
use pucora_ce.Pipe.Handler.{HandlerLayers, ProxyLayers, new_handler_factory, new_proxy_factory}

-- What is built, with the debug line.
pub record Built (A : Type 0) : Type 0 where
  pub line : String
  pub value : A

-- What applying a factory of the libraries gives: a proxy for a backend, a proxy or an error for an
-- endpoint, a handler for an endpoint and a proxy.
pub record Applied (BackendFactory ProxyFactory HandlerFactory : Type 0) : Type 1 where
  pub Endpoint : Type 0
  pub Proxy : Type 0
  pub ProxyResult : Type 0
  pub Handler : Type 0
  pub path : Endpoint → String
  pub backend_proxy : BackendFactory → Backend → Proxy
  pub endpoint_proxy : ProxyFactory → Endpoint → ProxyResult
  pub endpoint_handler : HandlerFactory → Endpoint → Proxy → Handler

module _ (B : BackendLayers) (P : ProxyLayers) (H : HandlerLayers)
    (A : Applied B.BackendFactory P.ProxyFactory H.HandlerFactory) where
  -- The function that `internalNewBackendFactory` returns.
  pub build_backend : (Backend → B.RequestExecutor) → Backend → Built A.Proxy
  build_backend executors remote = record {
    line = "[BACKEND: " <> (remote.url_pattern <> "] Building the backend pipe");
    value = A.backend_proxy (new_backend_factory B executors) remote;
  }

  -- `NewBackendFactoryWithContext`: the executors of the package, inside the loader of the plugins.
  pub build_backend_with_context :
      (C : ClientLayers)
      → ((Backend → C.RequestExecutor) → Backend → B.RequestExecutor)
      → Backend
      → Built A.Proxy
  unfolding build_backend
  build_backend_with_context C plugins = build_backend (plugins (request_executor C))

  -- The function of the factory that `NewProxyFactory` returns.
  pub build_proxy : P.BackendFactory → A.Endpoint → Built A.ProxyResult
  build_proxy backends endpoint = record {
    line = "[ENDPOINT: " <> (A.path endpoint <> "] Building the proxy pipe");
    value = A.endpoint_proxy (new_proxy_factory P backends) endpoint;
  }

  -- The function that `NewHandlerFactory` returns.
  pub build_handler : Fields → A.Endpoint → A.Proxy → Built A.Handler
  build_handler extra endpoint proxy = record {
    line = "[ENDPOINT: " <> (A.path endpoint <> "] Building the http handler");
    value = A.endpoint_handler (new_handler_factory H extra) endpoint proxy;
  }

-- The layers of `DefaultRunServerFactory`: the CORS module and the loader of the server plugins.
pub record RunServerLayers : Type 1 where
  pub RunServer : Type 0
  pub cors : RunServer → RunServer
  pub server_plugins : RunServer → RunServer

-- `DefaultRunServerFactory.NewRunServer`
pub new_run_server : (L : RunServerLayers) → L.RunServer → L.RunServer
new_run_server L next = L.server_plugins (L.cors next)
