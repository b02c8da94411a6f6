-- ===== src/Pipe/Handler.antt =====
-- handler_factory.go and proxy_factory.go: the stacks of the endpoint handlers and of the proxies.
use pucora_ce.Base.{String, Option, none, some, ◌≡◌, ap}
use pucora_ce.Base.Json.{Fields}

-- The layers of `NewHandlerFactory` and the service-level parts of their libraries. A registry or a
-- loader is nil unless its section is in the configuration.
pub record HandlerLayers : Type 1 where
  pub HandlerFactory : Type 0
  pub ApiKeysConfig : Type 0
  pub Registry : Type 0
  pub PluginConfig : Type 0
  pub Loader : Type 0
  pub parse_api_keys : Fields → Option ApiKeysConfig
  pub new_registry : ApiKeysConfig → Registry
  pub parse_middleware_plugin : Fields → Option PluginConfig
  pub new_loader : PluginConfig → Loader
  pub custom_error_handler : HandlerFactory
  pub rate_limiter : HandlerFactory → HandlerFactory
  pub rate_limit_redis : HandlerFactory → HandlerFactory
  pub rate_limit_tiered : HandlerFactory → HandlerFactory
  pub lua : HandlerFactory → HandlerFactory
  pub websocket : HandlerFactory → HandlerFactory
  pub api_keys : Option Registry → HandlerFactory → HandlerFactory
  pub basic_auth : HandlerFactory → HandlerFactory
  pub jose : HandlerFactory → HandlerFactory
  pub security_policies : HandlerFactory → HandlerFactory
  pub middleware_plugin : Option Loader → HandlerFactory → HandlerFactory
  pub metrics : HandlerFactory → HandlerFactory
  pub opencensus : HandlerFactory → HandlerFactory
  pub bot_detector : HandlerFactory → HandlerFactory

module _ (L : HandlerLayers) where
  pub api_keys_registry : Fields → Option L.Registry
  api_keys_registry extra = elim (L.parse_api_keys extra) [
    | none ↦ none
    | some cfg ↦ some (L.new_registry cfg)
  ]

  pub middleware_plugin_loader : Fields → Option L.Loader
  middleware_plugin_loader extra = elim (L.parse_middleware_plugin extra) [
    | none ↦ none
    | some cfg ↦ some (L.new_loader cfg)
  ]

  -- The layers up to basic authentication.
  unfoldable pub inner_handler : Fields → L.HandlerFactory
  unfolding api_keys_registry
  inner_handler extra =
      let h = L.custom_error_handler in
      let h = L.rate_limiter h in
      let h = L.rate_limit_redis h in
      let h = L.rate_limit_tiered h in
      let h = L.lua h in
      let h = L.websocket h in let h = L.api_keys (api_keys_registry extra) h in L.basic_auth h

  -- The layers around the token validation.
  outer_handler : Fields → L.HandlerFactory → L.HandlerFactory
  unfolding middleware_plugin_loader
  outer_handler extra h =
      let h = L.security_policies h in
      let h = L.middleware_plugin (middleware_plugin_loader extra) h in
      let h = L.metrics h in let h = L.opencensus h in L.bot_detector h

  -- `NewHandlerFactory`; the function that it returns logs and calls this factory.
  unfoldable pub new_handler_factory : Fields → L.HandlerFactory
  unfolding inner_handler outer_handler
  new_handler_factory extra = outer_handler extra (L.jose (inner_handler extra))

-- Where the token validation refuses, so that its layer does not use what it wraps, neither the rate
-- limits nor the scripts nor the WebSocket, API key and basic authentication layers have any
-- effect: they all lie inside it.
new_handler_factory_refused :
    (L : HandlerLayers) (extra : Fields) (custom_error_handler : L.HandlerFactory)
    (rate_limiter rate_limit_redis rate_limit_tiered lua websocket basic_auth : L.HandlerFactory
      → L.HandlerFactory)
    (api_keys : Option L.Registry → L.HandlerFactory → L.HandlerFactory)
    → ((f g : L.HandlerFactory) → L.jose f ≡ L.jose g)
    → new_handler_factory
        (record L {
          custom_error_handler = custom_error_handler;
          rate_limiter = rate_limiter;
          rate_limit_redis = rate_limit_redis;
          rate_limit_tiered = rate_limit_tiered;
          lua = lua;
          websocket = websocket;
          api_keys = api_keys;
          basic_auth = basic_auth;
        })
        extra
      ≡ new_handler_factory L extra
unfolding new_handler_factory
new_handler_factory_refused L extra custom_error_handler rate_limiter rate_limit_redis
      rate_limit_tiered lua websocket basic_auth api_keys refuses =
    ap (outer_handler L extra) (refuses _ _)

-- The layers of `internalNewProxyFactory`.
pub record ProxyLayers : Type 1 where
  pub BackendFactory : Type 0
  pub ProxyFactory : Type 0
  pub default_factory : BackendFactory → ProxyFactory
  pub shadow : ProxyFactory → ProxyFactory
  pub json_schema : ProxyFactory → ProxyFactory
  pub response_json_schema : ProxyFactory → ProxyFactory
  pub cel : ProxyFactory → ProxyFactory
  pub lua : ProxyFactory → ProxyFactory
  pub request_body : ProxyFactory → ProxyFactory
  pub response_body : ProxyFactory → ProxyFactory
  pub jmespath : ProxyFactory → ProxyFactory
  pub metrics : String → ProxyFactory → ProxyFactory
  pub opencensus : ProxyFactory → ProxyFactory

-- `internalNewProxyFactory`
unfoldable pub new_proxy_factory : (L : ProxyLayers) → L.BackendFactory → L.ProxyFactory
new_proxy_factory L backends =
    let pf = L.default_factory backends in
    let pf = L.shadow pf in
    let pf = L.json_schema pf in
    let pf = L.response_json_schema pf in
    let pf = L.cel pf in
    let pf = L.lua pf in
    let pf = L.request_body pf in
    let pf = L.response_body pf in
    let pf = L.jmespath pf in let pf = L.metrics "pipe" pf in L.opencensus pf
