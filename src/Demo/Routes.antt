-- ===== src/Demo/Routes.antt =====
-- examples: what each of the mocked backends serves, and under which paths, by its `main`.
use pucora_ce.Base.{String, List, [], ◌∷◌, Option, if◌then◌else◌}
use pucora_ce.Base.Dict.{Dict, lookup}
use pucora_ce.Demo.Common.{env_or, wants_healthcheck}

-- The handlers, by the names of their functions.
pub data Handler : Type 0 where
  health_handler country_flag_handler : Handler
  sse_handler chunked_handler : Handler
  graphql_handler user_subgraph_handler metadata_subgraph_handler : Handler
  symmetric_jwk_endpoint token_handler multiplex_handler direct_echo_handler : Handler

-- The address that is listened on, and the patterns, none of which ends in a slash.
pub record Server : Type 0 where
  pub addr : String
  pub handlers : Dict Handler

-- `ServeMux` on a path in canonical form: a pattern without a slash at its end stands for itself.
unfoldable pub handler : Server → String → Option Handler
unfolding lookup
handler s path = lookup path s.handlers

-- A process asks for the health of the server at the URL, or serves.
pub data Process : Type 0 where
  checks : String → Process
  serves : Server → Process

-- On the arguments and the environment, for a backend with the default address.
unfoldable pub process : String → String → Dict Handler → List String → (String → String) → Process
process url fallback handlers args getenv =
    if wants_healthcheck args
    then checks url
    else serves (record { addr = env_or getenv "LISTEN_ADDR" fallback; handlers = handlers })

abbrev pub soap_handlers : Dict Handler
soap_handlers = ("/health", health_handler) ∷ ("/CountryInfoService.wso", country_flag_handler) ∷ []

unfoldable pub soap_main : List String → (String → String) → Process
unfolding process
soap_main = process "http://127.0.0.1:8081/health" ":8081" soap_handlers

abbrev pub streaming_handlers : Dict Handler
streaming_handlers =
    ("/health", health_handler) ∷ ("/events", sse_handler) ∷ ("/chunked", chunked_handler) ∷ []

unfoldable pub streaming_main : List String → (String → String) → Process
unfolding process
streaming_main = process "http://127.0.0.1:8081/health" ":8081" streaming_handlers

abbrev pub graphql_handlers : Dict Handler
graphql_handlers =
    ("/health", health_handler)
    ∷ ("/graphql", graphql_handler)
    ∷ ("/graphql/user", user_subgraph_handler)
    ∷ ("/graphql/metadata", metadata_subgraph_handler)
    ∷ []

unfoldable pub graphql_main : List String → (String → String) → Process
unfolding process
graphql_main = process "http://127.0.0.1:4000/health" ":4000" graphql_handlers

abbrev pub jwt_handlers : Dict Handler
jwt_handlers =
    ("/health", health_handler)
    ∷ ("/jwk/symmetric", symmetric_jwk_endpoint)
    ∷ ("/token", token_handler)
    ∷ []

unfoldable pub jwt_main : List String → (String → String) → Process
unfolding process
jwt_main = process "http://127.0.0.1:8081/health" ":8081" jwt_handlers

abbrev pub websocket_handlers : Dict Handler
websocket_handlers =
    ("/health", health_handler)
    ∷ ("/jwk/symmetric", symmetric_jwk_endpoint)
    ∷ ("/token", token_handler)
    ∷ ("/ws", multiplex_handler)
    ∷ ("/echo", direct_echo_handler)
    ∷ []

unfoldable pub websocket_main : List String → (String → String) → Process
unfolding process
websocket_main = process "http://127.0.0.1:8081/health" ":8081" websocket_handlers
