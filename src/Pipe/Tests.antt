-- ===== src/Pipe/Tests.antt =====
-- Concrete layers: a layer is the text that names it, put before what it wraps.
use pucora_ce.Base.{ℕ, String, ◌<>◌, none, some, ◌≡◌, refl, ◌⊎◌, ◌==◌, if◌then◌else◌}
use pucora_ce.Base.Json.{null, obj, Fields, end, field, get}
use pucora_ce.Base.Result.{ok}
use pucora_ce.Pipe.Tls.{
  TlsLibraries, RoundTripper, transport, opaque, Client, Heap, new_http_client_with_backend_tls,
}
use pucora_ce.Pipe.Tls.Own.{Asks, IsDerived, new_http_client_with_backend_tls_lem}
use pucora_ce.Pipe.Executor.{Backend, ClientLayers, request_executor, request_executor_of_oauth2}

abbrev tls_libraries : TlsLibraries
tls_libraries = record {
  ClientTls = String;
  TlsConfig = String;
  Settings = ℕ;
  Opaque = String;
  CheckRedirect = String;
  Jar = String;
  zero_settings = 0;
  marshal = λ v. ok "tls";
  unmarshal = λ s. ok s;
  parse_config = λ tls. some tls;
}

abbrev tls_section : Fields
tls_section = field "client_tls" null end

abbrev with_tls_section : Fields
with_tls_section = field "backend/http/client" (obj tls_section) end

abbrev default_transport : RoundTripper tls_libraries
default_transport = transport 0

-- The default transport and another one.
abbrev heap : Heap tls_libraries
heap = record {
  next = 2;
  at = λ r. record { tls_client_config = none; settings = if r == 0 then 90 else 30 };
}

abbrev client : Client tls_libraries
client = record {
  round_tripper = some (opaque "traced");
  check_redirect = some "never";
  jar = none;
  timeout = 2000;
}

new_http_client_with_backend_tls_lem_example :
    let (c, g) =
      new_http_client_with_backend_tls tls_libraries default_transport
        (some with_tls_section)
        client
        heap in
    ((tls : String) × Asks tls_libraries (some with_tls_section) tls
      × IsDerived tls_libraries default_transport client heap tls c g)
    ⊎ (((tls : String) → ¬ Asks tls_libraries (some with_tls_section) tls)
        × (c ≡ client)
        × (g ≡ heap))
new_http_client_with_backend_tls_lem_example =
    new_http_client_with_backend_tls_lem tls_libraries default_transport (some with_tls_section)
      client heap

abbrev client_layers : ClientLayers
client_layers = record {
  ClientFactory = String;
  RequestExecutor = String;
  oauth2_namespace = "auth/client-credentials";
  new_http_client = "client";
  backend_tls = λ cfg c. "tls " <> c;
  no_redirect = λ cfg c. "no redirect " <> c;
  ntlm = λ cfg c. "ntlm " <> c;
  oauth2 = λ cfg. "oauth2";
  http_cache = λ cfg c. "cache " <> c;
  otel = λ c cfg. "otel " <> c;
  opencensus = λ c cfg. "opencensus " <> c;
  gcp_auth = λ cfg e. "gcp " <> e;
  aws_sigv4 = λ cfg e. "aws " <> e;
}

abbrev oauth2_backend : Backend
oauth2_backend = record {
  url_pattern = "/items";
  extra_config = field "auth/client-credentials" null end;
}

request_executor_of_oauth2_example :
    request_executor
      (record client_layers {
        backend_tls = λ cfg c. c;
        no_redirect = λ cfg c. c;
        ntlm = λ cfg c. c;
      })
      oauth2_backend
    ≡ request_executor client_layers oauth2_backend
unfolding get
request_executor_of_oauth2_example =
    request_executor_of_oauth2 client_layers oauth2_backend (λ cfg c. c) (λ cfg c. c) (λ cfg c. c)
      refl
