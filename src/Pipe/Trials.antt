-- ===== src/Pipe/Trials.antt =====
-- Requests that are turned down by the layers of a gateway.
use pucora_ce.Base.{[], String, ◌≡◌, refl, inl, inr}
use pucora_ce.Base.{◌++◌}
use pucora_ce.Base.Json.{end}
use pucora_ce.Pipe.Layers.{through, two_phase}
use pucora_ce.Pipe.Handler.{new_handler_factory}
use pucora_ce.Pipe.Executor.{new_backend_factory}
use pucora_ce.Pipe.Guards.{new_handler_factory-quota}
use pucora_ce.Pipe.Connectors.{new_backend_factory-quota}
use pucora_ce.Pipe.Handler.{new_proxy_factory}
use pucora_ce.Pipe.Route.{
  Factories, RouteModel, handlers, entrance, departure, client, handlers-two_phase,
  handlers-untouched,
}
use pucora_ce.Pipe.Samples.{
  Context, Handler, passing, endpoint, handler_layers, handler_model, anonymous, quota, calls,
  passing-Keeps_calls, counting-Keeps_calls, turning_down-Keeps_calls, passing-Keeps,
  turning_down-Keeps, backend_layers, backend_model, executors, proxy_layers, proxy_model,
}

infixr 4 ◌&◌
abbrev ◌&◌ : {A B : Type 0} → A → B → A × B
a & b = (a, b)

abbrev asking_proxies : Handler
asking_proxies = through passing (
    through passing (new_proxy_factory proxy_layers (new_backend_factory backend_layers executors)))

abbrev factories : Factories
factories = record {
  handler = handler_layers asking_proxies;
  proxy = proxy_layers;
  backend = backend_layers;
  otel_handler = through passing;
  otel_proxy = through passing;
  executors = executors;
  backends = new_backend_factory backend_layers executors;
  extra = end;
}

abbrev route_model : RouteModel factories Context String
route_model = record {
  handler = handler_model asking_proxies;
  proxy = proxy_model;
  backend = backend_model;
  otel_handler = passing;
  otel_proxy = passing;
  endpoint = passing;
  merging = [];
  otel_handler_law = λ f. refl;
  otel_proxy_law = λ f. refl;
  endpoint_law = refl;
  merging_law = refl;
}

handlers-two_phase_example :
    route_model.handler.serve (handlers factories) anonymous
    ≡ two_phase
        (entrance factories route_model ++ departure factories route_model)
        (client factories route_model)
        anonymous
handlers-two_phase_example = handlers-two_phase factories route_model anonymous

new_handler_factory-quota_example :
    (new_handler_factory (handler_layers endpoint) end anonymous).1.quota ≡ 10
new_handler_factory-quota_example =
    new_handler_factory-quota (handler_layers endpoint) (handler_model endpoint) end quota anonymous
      (passing-Keeps
        & passing-Keeps
        & passing-Keeps
        & passing-Keeps
        & passing-Keeps
        & turning_down-Keeps "401"
        & passing-Keeps
        & passing-Keeps
        & tt)
      (inr (refl, inr (refl, inr (refl, inr (refl, inr (refl, inl ("401", refl)))))))

new_backend_factory-quota_example :
    (new_backend_factory backend_layers executors anonymous).1.quota ≡ 10
new_backend_factory-quota_example =
    new_backend_factory-quota backend_layers backend_model executors quota anonymous
      (passing-Keeps & passing-Keeps & passing-Keeps & turning_down-Keeps "503" & tt)
      (inr (refl, inr (refl, inr (refl, inl ("503", refl)))))

handlers-untouched_example : (route_model.handler.serve (handlers factories) anonymous).1.calls ≡ 0
handlers-untouched_example =
    handlers-untouched factories route_model calls anonymous
      (passing-Keeps_calls
        & passing-Keeps_calls
        & passing-Keeps_calls
        & passing-Keeps_calls
        & passing-Keeps_calls
        & passing-Keeps_calls
        & turning_down-Keeps_calls "401"
        & passing-Keeps_calls
        & passing-Keeps_calls
        & passing-Keeps_calls
        & passing-Keeps_calls
        & counting-Keeps_calls
        & counting-Keeps_calls
        & counting-Keeps_calls
        & passing-Keeps_calls
        & passing-Keeps_calls
        & passing-Keeps_calls
        & passing-Keeps_calls
        & passing-Keeps_calls
        & passing-Keeps_calls
        & passing-Keeps_calls
        & passing-Keeps_calls
        & passing-Keeps_calls
        & passing-Keeps_calls
        & turning_down-Keeps_calls "400"
        & tt)
      (inr (refl, inr (refl, inr (refl, inr (refl, inr (refl, inr (refl, inl ("401", refl))))))))
