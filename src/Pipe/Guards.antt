-- ===== src/Pipe/Guards.antt =====
-- handler_factory.go: the stack of an endpoint's handler, seen through what its layers do to a request.
use pucora_ce.Base.{List, [], ◌∷◌, ◌++◌, Option, ◌≡◌, refl, ◌∙◌, ap, All}
use pucora_ce.Base.Json.{Fields}
use pucora_ce.Pipe.Layers.{
  Layer, through, stacked, two_phase, stacked-two_phase, inside, Keeps, Answers, stacked-Answers,
}
use pucora_ce.Pipe.Handler.{
  HandlerLayers, new_handler_factory, inner_handler, api_keys_registry, middleware_plugin_loader,
}

-- What the libraries document of their layers: each is a middleware. `serve` runs the handler that a
-- factory makes for one endpoint and its proxy.
pub record HandlerModel (L : HandlerLayers) (S A : Type 0) : Type 0 where
  pub serve : L.HandlerFactory → S → A × S
  pub rate_limiter : Layer S A
  pub rate_limit_redis : Layer S A
  pub rate_limit_tiered : Layer S A
  pub lua : Layer S A
  pub websocket : Layer S A
  pub basic_auth : Layer S A
  pub jose : Layer S A
  pub security_policies : Layer S A
  pub metrics : Layer S A
  pub opencensus : Layer S A
  pub bot_detector : Layer S A
  pub api_keys : Option L.Registry → Layer S A
  pub middleware_plugin : Option L.Loader → Layer S A
  pub rate_limiter_law :
      (f : L.HandlerFactory) → serve (L.rate_limiter f) ≡ through rate_limiter (serve f)
  pub rate_limit_redis_law :
      (f : L.HandlerFactory) → serve (L.rate_limit_redis f) ≡ through rate_limit_redis (serve f)
  pub rate_limit_tiered_law :
      (f : L.HandlerFactory) → serve (L.rate_limit_tiered f) ≡ through rate_limit_tiered (serve f)
  pub lua_law : (f : L.HandlerFactory) → serve (L.lua f) ≡ through lua (serve f)
  pub websocket_law : (f : L.HandlerFactory) → serve (L.websocket f) ≡ through websocket (serve f)
  pub basic_auth_law :
      (f : L.HandlerFactory) → serve (L.basic_auth f) ≡ through basic_auth (serve f)
  pub jose_law : (f : L.HandlerFactory) → serve (L.jose f) ≡ through jose (serve f)
  pub security_policies_law :
      (f : L.HandlerFactory) → serve (L.security_policies f) ≡ through security_policies (serve f)
  pub metrics_law : (f : L.HandlerFactory) → serve (L.metrics f) ≡ through metrics (serve f)
  pub opencensus_law :
      (f : L.HandlerFactory) → serve (L.opencensus f) ≡ through opencensus (serve f)
  pub bot_detector_law :
      (f : L.HandlerFactory) → serve (L.bot_detector f) ≡ through bot_detector (serve f)
  pub api_keys_law :
      (r : Option L.Registry) (f : L.HandlerFactory)
      → serve (L.api_keys r f) ≡ through (api_keys r) (serve f)
  pub middleware_plugin_law :
      (l : Option L.Loader) (f : L.HandlerFactory)
      → serve (L.middleware_plugin l f) ≡ through (middleware_plugin l) (serve f)

module _ (L : HandlerLayers) {S A : Type 0} (M : HandlerModel L S A) (extra : Fields) where
  -- The layers that decide who asks, the outermost first.
  abbrev pub access : List (Layer S A)
  access =
      M.bot_detector
      ∷ M.opencensus
      ∷ M.metrics
      ∷ M.middleware_plugin (middleware_plugin_loader L extra)
      ∷ M.security_policies
      ∷ M.jose
      ∷ M.basic_auth
      ∷ M.api_keys (api_keys_registry L extra)
      ∷ []

  -- The layers around the endpoint, the outermost first.
  abbrev pub traffic : List (Layer S A)
  traffic = M.websocket ∷ M.lua ∷ M.rate_limit_tiered ∷ M.rate_limit_redis ∷ M.rate_limiter ∷ []

  inner-stacked :
      M.serve (inner_handler L extra)
      ≡ stacked
          (M.basic_auth ∷ M.api_keys (api_keys_registry L extra) ∷ traffic)
          (M.serve L.custom_error_handler)
  unfolding inner_handler
  inner-stacked = inside M.serve L.basic_auth M.basic_auth M.basic_auth_law (
      inside M.serve (L.api_keys (api_keys_registry L extra))
        (M.api_keys (api_keys_registry L extra)) (M.api_keys_law (api_keys_registry L extra))
        (inside M.serve L.websocket M.websocket M.websocket_law (
          inside M.serve L.lua M.lua M.lua_law (
            inside M.serve L.rate_limit_tiered M.rate_limit_tiered M.rate_limit_tiered_law (
              inside M.serve L.rate_limit_redis M.rate_limit_redis M.rate_limit_redis_law (
                inside M.serve L.rate_limiter M.rate_limiter M.rate_limiter_law
                  {f = L.custom_error_handler} refl))))))

  pub serve-stacked :
      M.serve (new_handler_factory L extra)
      ≡ stacked (access ++ traffic) (M.serve L.custom_error_handler)
  unfolding new_handler_factory
  serve-stacked = inside M.serve L.bot_detector M.bot_detector M.bot_detector_law (
      inside M.serve L.opencensus M.opencensus M.opencensus_law (
        inside M.serve L.metrics M.metrics M.metrics_law (
          inside M.serve (L.middleware_plugin (middleware_plugin_loader L extra))
            (M.middleware_plugin (middleware_plugin_loader L extra))
            (M.middleware_plugin_law (middleware_plugin_loader L extra))
            (inside M.serve L.security_policies M.security_policies M.security_policies_law
              (inside M.serve L.jose M.jose M.jose_law (inner-stacked))))))

  -- Where each library's layer is a middleware, a request goes through the layers one after another,
  -- the bot detector first and the rate limiter last, up to the first that answers by itself or to
  -- the endpoint, and the answer goes back through those that were passed, and no others.
  new_handler_factory-two_phase :
      (s : S)
      → M.serve (new_handler_factory L extra) s
        ≡ two_phase (access ++ traffic) (M.serve L.custom_error_handler) s
  new_handler_factory-two_phase s =
      ap (λ f. f s) serve-stacked
      ∙ stacked-two_phase (access ++ traffic) (M.serve L.custom_error_handler) s

  -- Where each library's layer is a middleware, a request that is turned down by one of the layers up to
  -- the API keys uses up nothing that these layers do not touch, such as the quotas of the rate limits.
  pub new_handler_factory-quota :
      {Q : Type 0} (quota : S → Q) (s : S)
      → All (Keeps quota) access
      → Answers access s
      → quota (M.serve (new_handler_factory L extra) s).1 ≡ quota s
  new_handler_factory-quota quota s keep turned_down =
      ap (λ f. quota (f s).1) serve-stacked
      ∙ stacked-Answers quota access traffic (M.serve L.custom_error_handler) s keep turned_down
