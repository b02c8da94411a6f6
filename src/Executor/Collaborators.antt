-- ===== src/Executor/Collaborators.antt =====
-- executor.go: the interfaces behind which the executor finds its collaborators, and the libraries
-- that it calls. The context and the logger, which nearly every call takes, are left out.
use pucora_ce.Base.{String, List, [], Option, none, Bool, false, or_default}
use pucora_ce.Base.Result.{Result}
use pucora_ce.Base.Json.{Fields}
use pucora_ce.Executor.Config.{ServiceConfig, AsyncAgent}

-- An error that the caller tells apart by comparing it with a sentinel of the callee (`ErrNoConfig`,
-- `ErrNoValidatorCfg`, `ErrWrongConfig`), or any other with its message.
pub data Problem : Type 0 where
  sentinel : Problem
  failed : String → Problem

-- The libraries: their types, and the calls that the executor makes of them itself.
pub record Libraries : Type 1 where
  pub Writer : Type 0
  pub Metrics : Type 0
  pub Subscribe : Type 0
  pub RejecterFactory : Type 0
  pub GrpcRegistry : Type 0
  pub GrpcConfig : Type 0
  pub BackendFactory : Type 0
  pub ProxyFactory : Type 0
  pub HandlerFactory : Type 0
  pub RunServer : Type 0
  pub Engine : Type 0
  pub Middleware : Type 0
  pub PluginLoader : Type 0
  pub PluginLoaderWithContext : Type 0
  pub version : String
  pub getenv : String → String
  pub getwd : Result String
  pub normalize : ServiceConfig → ServiceConfig
  -- These two take the configuration by reference: it comes back with the error.
  pub validate_kafka : ServiceConfig → ServiceConfig × Option String
  pub validate_soap : ServiceConfig → ServiceConfig × Option String
  pub hash : ServiceConfig → Result String
  pub set_global_cacher : Fields → Option Problem
  pub bootstrap : ServiceConfig → Result (Option GrpcRegistry × GrpcConfig)
  pub otel_proxy : ProxyFactory → ProxyFactory
  pub otel_handler : HandlerFactory → HandlerFactory
  pub run_server_with_logger : RunServer
  pub otel_run_server : RunServer → RunServer
  pub grpc_run_server :
      Option GrpcRegistry → GrpcConfig → ProxyFactory → RejecterFactory → RunServer → RunServer
  -- `errgroup.Group.Wait`, on what the functions of the group returned, the first to return first.
  pub group_wait : List (Option String) → Option String

module _ (L : Libraries) where
  open L use {Writer, Metrics, Subscribe, RejecterFactory, BackendFactory, ProxyFactory}
  open L use {HandlerFactory, RunServer, Engine, Middleware, PluginLoader}
  open L use {PluginLoaderWithContext}

  -- `router.Config`.
  pub record RouterConfig : Type 0 where
    pub engine : Engine
    pub proxy_factory : ProxyFactory
    pub middlewares : List Middleware
    pub handler_factory : HandlerFactory
    pub run_server : RunServer

  -- A `MetricsAndTracesRegister`, and whether it is an `io.Closer` as well.
  pub record MetricsRegister : Type 0 where
    pub register : ServiceConfig → Metrics
    pub is_closer : Bool

  -- `MetricsAndTraces`, the register of the package: its `Close` returns no error, so that it is no
  -- `io.Closer`.
  abbrev pub metrics_and_traces : (ServiceConfig → Metrics) → MetricsRegister
  metrics_and_traces register = record { register = register; is_closer = false }

  -- `ExecutorBuilder`: its collaborators, each of which may be nil (`Option`) or is there.
  pub record Slots (F : Type 0 → Type 0) : Type 0 where
    pub plugin_loader : F PluginLoader
    pub plugin_loader_with_context : F PluginLoaderWithContext
    pub logger_factory : F (ServiceConfig → Writer × Option String)
    pub subscriber_factories_register : F (ServiceConfig → Subscribe)
    pub token_rejecter_factory : F (ServiceConfig → Subscribe → RejecterFactory × Option Problem)
    pub metrics_and_traces_register : F MetricsRegister
    pub engine_factory : F (ServiceConfig → Writer → Engine)
    pub proxy_factory : F (BackendFactory → Metrics → ProxyFactory)
    pub backend_factory : F (Metrics → BackendFactory)
    pub handler_factory : F (Metrics → RejecterFactory → ServiceConfig → HandlerFactory)
    pub run_server_factory : F (RunServer → RunServer)
    -- What the function that `Start` returns will return.
    pub agent_starter_factory : F (List AsyncAgent → ProxyFactory → Option String)
    pub middlewares : List Middleware

  abbrev pub ExecutorBuilder : Type 0
  ExecutorBuilder = Slots Option

  -- `new(ExecutorBuilder)`
  abbrev pub new_builder : ExecutorBuilder
  new_builder = record {
    plugin_loader = none;
    plugin_loader_with_context = none;
    logger_factory = none;
    subscriber_factories_register = none;
    token_rejecter_factory = none;
    metrics_and_traces_register = none;
    engine_factory = none;
    proxy_factory = none;
    backend_factory = none;
    handler_factory = none;
    run_server_factory = none;
    agent_starter_factory = none;
    middlewares = [];
  }

  abbrev pub Collaborators : Type 0
  Collaborators = Slots (λ A. A)

  -- `checkCollaborators`, with the package's own implementations at hand.
  unfoldable pub check_collaborators : Collaborators → ExecutorBuilder → Collaborators
  check_collaborators d e = record {
    plugin_loader = or_default e.plugin_loader d.plugin_loader;
    plugin_loader_with_context =
        or_default e.plugin_loader_with_context d.plugin_loader_with_context;
    subscriber_factories_register =
        or_default e.subscriber_factories_register d.subscriber_factories_register;
    token_rejecter_factory = or_default e.token_rejecter_factory d.token_rejecter_factory;
    metrics_and_traces_register =
        or_default e.metrics_and_traces_register d.metrics_and_traces_register;
    engine_factory = or_default e.engine_factory d.engine_factory;
    proxy_factory = or_default e.proxy_factory d.proxy_factory;
    backend_factory = or_default e.backend_factory d.backend_factory;
    handler_factory = or_default e.handler_factory d.handler_factory;
    logger_factory = or_default e.logger_factory d.logger_factory;
    run_server_factory = or_default e.run_server_factory d.run_server_factory;
    agent_starter_factory = or_default e.agent_starter_factory d.agent_starter_factory;
    middlewares = e.middlewares;
  }
