-- ===== src/Alias/Defs.antt =====
-- cmd/pucora-ce/main.go: the short names of the configuration namespaces (`aliases` and
-- `registerAliases`).
use pucora_ce.Base.{String, [], ◌∷◌}
use pucora_ce.Base.Dict.{Dict, insert}

-- `aliases`: for each namespace, its short name.
abbrev pub aliases : Dict String
aliases =
    ("github_com/pucora/pucora/transport/http/server/handler", "plugin/http-server")
    ∷ ("github.com/pucora/pucora/transport/http/client/executor", "plugin/http-client")
    ∷ ("github.com/pucora/pucora/proxy/plugin", "plugin/req-resp-modifier")
    ∷ ("github.com/pucora/pucora/proxy", "proxy")
    ∷ ("github_com/pucora/lura/v2/router/gin", "router")
    ∷ ("github.com/pucora/pucora-httpcache", "qos/http-cache")
    ∷ ("github.com/pucora/pucora-circuitbreaker/gobreaker", "qos/circuit-breaker")
    ∷ ("github.com/pucora/pucora-apikeys", "auth/api-keys")
    ∷ ("github.com/pucora/pucora-basicauth", "auth/basic")
    ∷ ("github.com/pucora/pucora-aws-sigv4", "auth/aws-sigv4")
    ∷ ("github.com/pucora/pucora-gcp-auth", "auth/gcp")
    ∷ ("github.com/pucora/pucora-ntlm", "auth/ntlm")
    ∷ ("github.com/pucora/pucora-oauth2-clientcredentials", "auth/client-credentials")
    ∷ ("github.com/pucora/pucora-jose/validator", "auth/validator")
    ∷ ("github.com/pucora/pucora-jose/signer", "auth/signer")
    ∷ ("github_com/devopsfaith/bloomfilter", "auth/revoker")
    ∷ ("github_com/pucora/pucora-botdetector", "security/bot-detector")
    ∷ ("github_com/pucora/pucora-httpsecure", "security/http")
    ∷ ("github_com/pucora/pucora-cors", "security/cors")
    ∷ ("github.com/pucora/pucora-cel", "validation/cel")
    ∷ ("github.com/pucora/pucora-jsonschema", "validation/json-schema")
    ∷ ("github.com/pucora/pucora-amqp/agent", "async/amqp")
    ∷ ("github.com/pucora/pucora-amqp/consume", "backend/amqp/consumer")
    ∷ ("github.com/pucora/pucora-amqp/produce", "backend/amqp/producer")
    ∷ ("github.com/pucora/pucora-lambda", "backend/lambda")
    ∷ ("github.com/pucora/pucora-soap/v2", "backend/soap")
    ∷ ("github.com/pucora/pucora-grpc/v2", "grpc")
    ∷ ("github.com/pucora/pucora-grpc/v2/client", "backend/grpc")
    ∷ ("github.com/pucora/pucora-pubsub/publisher", "backend/pubsub/publisher")
    ∷ ("github.com/pucora/pucora-pubsub/subscriber", "backend/pubsub/subscriber")
    ∷ ("github.com/pucora/pucora-pubsub/kafka/publisher", "backend/pubsub/publisher/kafka")
    ∷ ("github.com/pucora/pucora-pubsub/kafka/subscriber", "backend/pubsub/subscriber/kafka")
    ∷ ("github.com/pucora/pucora-pubsub/async", "async/kafka")
    ∷ ("github.com/pucora/lura/v2/transport/http/client/graphql", "backend/graphql")
    ∷ ("github.com/pucora/pucora/http", "backend/http")
    ∷ ("github_com/pucora/pucora-gelf", "telemetry/gelf")
    ∷ ("github_com/pucora/pucora-gologging", "telemetry/logging")
    ∷ ("github_com/pucora/pucora-logstash", "telemetry/logstash")
    ∷ ("github_com/pucora/pucora-metrics", "telemetry/metrics")
    ∷ ("github_com/pucora/pucora-influx", "telemetry/influx")
    ∷ ("github_com/pucora/pucora-opencensus", "telemetry/opencensus")
    ∷ ("github.com/pucora/pucora-lua/router", "modifier/lua-endpoint")
    ∷ ("github.com/pucora/pucora-lua/proxy", "modifier/lua-proxy")
    ∷ ("github.com/pucora/pucora-lua/proxy/backend", "modifier/lua-backend")
    ∷ ("github.com/pucora/pucora-martian", "modifier/martian")
    ∷ ("github.com/pucora/pucora-fastjson", "encoding/fast-json")
    ∷ ("github.com/pucora/pucora-no-redirect", "backend/no-redirect")
    ∷ ("github.com/pucora/pucora-jmespath", "modifier/jmespath")
    ∷ ("github.com/pucora/pucora-security-policies", "security/policies")
    ∷ ("github.com/pucora/pucora-wildcard", "plugin/wildcard")
    ∷ ("github.com/pucora/pucora-openapi", "documentation/openapi")
    ∷ ("github.com/pucora/pucora-postman", "documentation/postman")
    ∷ ("github.com/pucora/pucora-middleware-plugin", "plugin/middleware")
    ∷ []

-- The loop over `aliases`, in the order in which the runtime yields the entries.
unfoldable pub register_all : Dict String → Dict String → Dict String
register_all [] m = m
register_all ((key, alias) ∷ rest) m = register_all rest (insert alias key m)

-- The assignments after the loop, for modules that serve several namespaces.
abbrev pub multi_namespace : Dict String
multi_namespace =
    ("modifier/response-body", "github.com/pucora/pucora-response-body")
    ∷ ("modifier/response-body-generator", "github.com/pucora/pucora-response-body")
    ∷ ("modifier/request-body-extractor", "github.com/pucora/pucora-request-body")
    ∷ ("modifier/request-body-generator", "github.com/pucora/pucora-request-body")
    ∷ ("validation/response-json-schema", "github.com/pucora/pucora-jsonschema/v2")
    ∷ ("qos/ratelimit/router/redis", "github.com/pucora/pucora-ratelimit/v3")
    ∷ ("qos/ratelimit/tiered", "github.com/pucora/pucora-ratelimit/v3")
    ∷ []

unfoldable pub assign_all : Dict String → Dict String → Dict String
assign_all [] m = m
assign_all ((alias, key) ∷ rest) m = assign_all rest (insert alias key m)

-- `registerAliases`, on the map `config.ExtraConfigAlias`.
unfoldable pub register_aliases : Dict String → Dict String → Dict String
unfolding register_all assign_all
register_aliases order m = assign_all multi_namespace (register_all order m)
