-- ===== src/Pipe/Samples.antt =====
-- Layers that are middlewares: a token validation, a schema, a circuit breaker and rate limits that
-- count down.
use pucora_ce.Base.{ℕ, ◌+◌, ◌-◌, String, Bool, false, none, some, refl}
use pucora_ce.Base.{if◌then◌else◌}
use pucora_ce.Base.Json.{end}
use pucora_ce.Pipe.Layers.{Layer, through, Keeps}
use pucora_ce.Pipe.Handler.{HandlerLayers}
use pucora_ce.Pipe.Executor.{Backend, BackendLayers}
use pucora_ce.Pipe.Guards.{HandlerModel}
use pucora_ce.Pipe.Connectors.{BackendModel}
use pucora_ce.Pipe.Handler.{ProxyLayers}
use pucora_ce.Pipe.Proxies.{ProxyModel}

pub record Context : Type 0 where
  pub valid : Bool
  pub quota : ℕ
  pub calls : ℕ

abbrev pub Handler : Type 0
Handler = Context → String × Context

abbrev pub passing : Layer Context String
passing = record { before = λ s. (none, s); after = λ o. o }

abbrev pub counting : Layer Context String
counting = record { before = λ s. (none, record s { quota = s.quota - 1 }); after = λ o. o }

abbrev pub calling : Layer Context String
calling = record { before = λ s. (none, record s { calls = s.calls + 1 }); after = λ o. o }

abbrev pub turning_down : String → Layer Context String
turning_down a = record { before = λ s. (if s.valid then none else some a, s); after = λ o. o }

abbrev pub endpoint : Handler
endpoint s = ("200", s)

-- The layers of an endpoint whose handler is given.
abbrev pub handler_layers : Handler → HandlerLayers
handler_layers served = record {
  HandlerFactory = Handler;
  ApiKeysConfig = String;
  Registry = String;
  PluginConfig = String;
  Loader = String;
  parse_api_keys = λ extra. none;
  new_registry = λ cfg. cfg;
  parse_middleware_plugin = λ extra. none;
  new_loader = λ cfg. cfg;
  custom_error_handler = served;
  rate_limiter = through counting;
  rate_limit_redis = through counting;
  rate_limit_tiered = through counting;
  lua = through passing;
  websocket = through passing;
  api_keys = λ registry. through passing;
  basic_auth = through passing;
  jose = through (turning_down "401");
  security_policies = through passing;
  middleware_plugin = λ loader. through passing;
  metrics = through passing;
  opencensus = through passing;
  bot_detector = through passing;
}

abbrev pub handler_model : (served : Handler) → HandlerModel (handler_layers served) Context String
handler_model served = record {
  serve = λ f. f;
  rate_limiter = counting;
  rate_limit_redis = counting;
  rate_limit_tiered = counting;
  lua = passing;
  websocket = passing;
  basic_auth = passing;
  jose = turning_down "401";
  security_policies = passing;
  metrics = passing;
  opencensus = passing;
  bot_detector = passing;
  api_keys = λ registry. passing;
  middleware_plugin = λ loader. passing;
  rate_limiter_law = λ f. refl;
  rate_limit_redis_law = λ f. refl;
  rate_limit_tiered_law = λ f. refl;
  lua_law = λ f. refl;
  websocket_law = λ f. refl;
  basic_auth_law = λ f. refl;
  jose_law = λ f. refl;
  security_policies_law = λ f. refl;
  metrics_law = λ f. refl;
  opencensus_law = λ f. refl;
  bot_detector_law = λ f. refl;
  api_keys_law = λ r f. refl;
  middleware_plugin_law = λ l f. refl;
}

abbrev pub anonymous : Context
anonymous = record { valid = false; quota = 10; calls = 0 }

abbrev pub quota : Context → ℕ
quota s = s.quota

pub passing-Keeps : Keeps quota passing
passing-Keeps = record { inward = λ s. refl; outward = λ o. refl }

pub turning_down-Keeps : (a : String) → Keeps quota (turning_down a)
turning_down-Keeps a = record { inward = λ s. refl; outward = λ o. refl }

abbrev pub calls : Context → ℕ
calls s = s.calls

pub passing-Keeps_calls : Keeps calls passing
passing-Keeps_calls = record { inward = λ s. refl; outward = λ o. refl }

pub counting-Keeps_calls : Keeps calls counting
counting-Keeps_calls = record { inward = λ s. refl; outward = λ o. refl }

pub turning_down-Keeps_calls : (a : String) → Keeps calls (turning_down a)
turning_down-Keeps_calls a = record { inward = λ s. refl; outward = λ o. refl }

abbrev pub backend_layers : BackendLayers
backend_layers = record {
  RequestExecutor = Handler;
  BackendFactory = Handler;
  martian = λ e. e (record { url_pattern = "/items"; extra_config = end });
  pubsub = through calling;
  amqp = through passing;
  lambda = through passing;
  soap = through passing;
  grpc_client = through passing;
  cel = through passing;
  lua = through passing;
  rate_limit = through counting;
  circuit_breaker = through (turning_down "503");
  metrics = λ name. through passing;
  opencensus = through passing;
  otel = through passing;
}

abbrev pub backend_model : BackendModel backend_layers Context String
backend_model = record {
  serve = λ f. f;
  pubsub = calling;
  amqp = passing;
  lambda = passing;
  soap = passing;
  grpc_client = passing;
  cel = passing;
  lua = passing;
  rate_limit = counting;
  circuit_breaker = turning_down "503";
  metrics = passing;
  opencensus = passing;
  otel = passing;
  pubsub_law = λ f. refl;
  amqp_law = λ f. refl;
  lambda_law = λ f. refl;
  soap_law = λ f. refl;
  grpc_client_law = λ f. refl;
  cel_law = λ f. refl;
  lua_law = λ f. refl;
  rate_limit_law = λ f. refl;
  circuit_breaker_law = λ f. refl;
  metrics_law = λ f. refl;
  opencensus_law = λ f. refl;
  otel_law = λ f. refl;
}

abbrev pub executors : Backend → Handler
executors remote = endpoint

abbrev pub proxy_layers : ProxyLayers
proxy_layers = record {
  BackendFactory = Handler;
  ProxyFactory = Handler;
  default_factory = λ f. f;
  shadow = through calling;
  json_schema = through (turning_down "400");
  response_json_schema = through passing;
  cel = through passing;
  lua = through passing;
  request_body = through passing;
  response_body = through passing;
  jmespath = through passing;
  metrics = λ name. through passing;
  opencensus = through passing;
}

abbrev pub proxy_model : ProxyModel proxy_layers Context String
proxy_model = record {
  serve = λ f. f;
  shadow = calling;
  json_schema = turning_down "400";
  response_json_schema = passing;
  cel = passing;
  lua = passing;
  request_body = passing;
  response_body = passing;
  jmespath = passing;
  metrics = passing;
  opencensus = passing;
  shadow_law = λ f. refl;
  json_schema_law = λ f. refl;
  response_json_schema_law = λ f. refl;
  cel_law = λ f. refl;
  lua_law = λ f. refl;
  request_body_law = λ f. refl;
  response_body_law = λ f. refl;
  jmespath_law = λ f. refl;
  metrics_law = λ f. refl;
  opencensus_law = λ f. refl;
}
