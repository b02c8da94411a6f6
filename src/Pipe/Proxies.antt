-- ===== src/Pipe/Proxies.antt =====
-- proxy_factory.go: the stack of an endpoint's proxy, seen through what its layers do to a request.
use pucora_ce.Base.{List, [], ◌∷◌, ◌++◌, ◌≡◌, refl}
use pucora_ce.Pipe.Layers.{Layer, through, stacked, inside}
use pucora_ce.Pipe.Handler.{ProxyLayers, new_proxy_factory}

-- What the libraries document of their layers on one endpoint: each is a middleware. `serve` runs the
-- proxy that a factory makes.
pub record ProxyModel (L : ProxyLayers) (S A : Type 0) : Type 0 where
  pub serve : L.ProxyFactory → S → A × S
  pub shadow : Layer S A
  pub json_schema : Layer S A
  pub response_json_schema : Layer S A
  pub cel : Layer S A
  pub lua : Layer S A
  pub request_body : Layer S A
  pub response_body : Layer S A
  pub jmespath : Layer S A
  pub metrics : Layer S A
  pub opencensus : Layer S A
  pub shadow_law : (f : L.ProxyFactory) → serve (L.shadow f) ≡ through shadow (serve f)
  pub json_schema_law :
      (f : L.ProxyFactory) → serve (L.json_schema f) ≡ through json_schema (serve f)
  pub response_json_schema_law :
      (f : L.ProxyFactory)
      → serve (L.response_json_schema f) ≡ through response_json_schema (serve f)
  pub cel_law : (f : L.ProxyFactory) → serve (L.cel f) ≡ through cel (serve f)
  pub lua_law : (f : L.ProxyFactory) → serve (L.lua f) ≡ through lua (serve f)
  pub request_body_law :
      (f : L.ProxyFactory) → serve (L.request_body f) ≡ through request_body (serve f)
  pub response_body_law :
      (f : L.ProxyFactory) → serve (L.response_body f) ≡ through response_body (serve f)
  pub jmespath_law : (f : L.ProxyFactory) → serve (L.jmespath f) ≡ through jmespath (serve f)
  pub metrics_law : (f : L.ProxyFactory) → serve (L.metrics "pipe" f) ≡ through metrics (serve f)
  pub opencensus_law : (f : L.ProxyFactory) → serve (L.opencensus f) ≡ through opencensus (serve f)

module _ (L : ProxyLayers) {S A : Type 0} (M : ProxyModel L S A) (backends : L.BackendFactory) where
  -- The layers up to the schema of the request, the outermost first.
  abbrev pub validation : List (Layer S A)
  validation =
      M.opencensus ∷ M.metrics ∷ M.jmespath ∷ M.response_body ∷ M.request_body ∷ M.lua ∷ M.cel
      ∷ M.response_json_schema ∷ M.json_schema ∷ []

  pub serve-stacked :
      M.serve (new_proxy_factory L backends)
      ≡ stacked (validation ++ (M.shadow ∷ [])) (M.serve (L.default_factory backends))
  unfolding new_proxy_factory
  serve-stacked = inside M.serve L.opencensus M.opencensus M.opencensus_law (
      inside M.serve (L.metrics "pipe") M.metrics M.metrics_law (
        inside M.serve L.jmespath M.jmespath M.jmespath_law (
          inside M.serve L.response_body M.response_body M.response_body_law (
            inside M.serve L.request_body M.request_body M.request_body_law (
              inside M.serve L.lua M.lua M.lua_law (
                inside M.serve L.cel M.cel M.cel_law (
                  inside M.serve L.response_json_schema M.response_json_schema
                    M.response_json_schema_law
                    (inside M.serve L.json_schema M.json_schema M.json_schema_law (
                      inside M.serve L.shadow M.shadow M.shadow_law {f = L.default_factory backends}
                        refl)))))))))
