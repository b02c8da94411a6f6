-- ===== src/Executor/Samples.antt =====
-- Concrete collaborators of the executor.
use pucora_ce.Base.{str_eq, if◌then◌else◌, String, Bool, true, false, List, [], ◌∷◌, none, some}
use pucora_ce.Base.Json.{end}
use pucora_ce.Base.Result.{ok}
use pucora_ce.Executor.Config.{ServiceConfig}
use pucora_ce.Executor.Collaborators.{
  sentinel, metrics_and_traces, Libraries, RouterConfig, ExecutorBuilder, new_builder,
  Collaborators,
}
use pucora_ce.Executor.Schedule.{first_error}

-- Libraries whose values are texts that name them.
abbrev pub libraries : Libraries
libraries = record {
  Writer = String;
  Metrics = String;
  Subscribe = String;
  RejecterFactory = String;
  GrpcRegistry = String;
  GrpcConfig = String;
  BackendFactory = String;
  ProxyFactory = String;
  HandlerFactory = String;
  RunServer = String;
  Engine = String;
  Middleware = String;
  PluginLoader = String;
  PluginLoaderWithContext = String;
  version = "2.0";
  getenv = λ key. if str_eq key "USAGE_DISABLE" then "1" else "";
  getwd = ok "/etc/pucora";
  normalize = λ cfg. cfg;
  validate_kafka = λ cfg. (cfg, none);
  validate_soap = λ cfg. (cfg, none);
  hash = λ cfg. ok "cluster";
  set_global_cacher = λ extra. none;
  bootstrap = λ cfg. ok (some "catalog", "grpc");
  otel_proxy = λ pf. pf;
  otel_handler = λ hf. hf;
  run_server_with_logger = "server";
  otel_run_server = λ rs. rs;
  grpc_run_server = λ registry cfg pf rejecter rs. rs;
  group_wait = first_error;
}

abbrev pub defaults : Collaborators libraries
defaults = record {
  plugin_loader = "loader";
  plugin_loader_with_context = "loader with context";
  logger_factory = λ cfg. ("writer", none);
  subscriber_factories_register = λ cfg. "subscribers";
  token_rejecter_factory = λ cfg subscribe. ("rejecter", some sentinel);
  metrics_and_traces_register = metrics_and_traces libraries (λ cfg. "metrics");
  engine_factory = λ cfg w. "engine";
  proxy_factory = λ bf m. "proxies";
  backend_factory = λ m. "backends";
  handler_factory = λ m rejecter cfg. "handlers";
  run_server_factory = λ rs. rs;
  agent_starter_factory = λ agents pf. some "no broker";
  middlewares = [];
}

abbrev pub no_builder : ExecutorBuilder libraries
no_builder = new_builder libraries

abbrev pub config : ServiceConfig
config = record {
  extra_config = end;
  plugin = some (record { folder = "/opt/plugins/"; pattern = ".so" });
  dns_cache_ttl = 30000;
  async_agents = record { name = "orders" } ∷ [];
  sequential_start = true;
}

abbrev pub schedule : List Bool
schedule = false ∷ true ∷ false ∷ []

abbrev pub router_config : RouterConfig libraries
router_config = record {
  engine = "engine";
  proxy_factory = "proxies";
  middlewares = [];
  handler_factory = "handlers";
  run_server = "server";
}
