-- ===== src/Lib.antt =====
-- Pucora Community Edition: how the gateway starts and how the layers of its requests are
-- stacked, the loading and testing of plugins, the short names of the configuration, the command
-- itself, the harness of the integration tests and the servers and clients of the examples.
--
-- The parts and how they interact. The command `pucora` (cmd/pucora-ce/main.go) starts a
-- goroutine that cancels the context at a signal, registers the encoders (encoding.go) and the
-- short names of the configuration namespaces, and hands the executor of executor.go to the
-- command line library, which calls it with that context and the configuration that it read. The
-- executor opens a logger, validates the configuration, loads the plugins (plugin.go), registers
-- the metrics, boots gRPC, builds the backend, proxy, handler and run-server factories
-- (backend_factory.go, backend_client_tls.go, proxy_factory.go, handler_factory.go) and the
-- engine (router_engine.go), and runs the router, in an error group with the asynchronous agents
-- if there are any. The command `pucora-integration` (cmd/pucora-integration/main.go) starts a
-- gateway and a mocked backend with tests/integration.go, sends the requests of the test cases
-- and compares the responses. The backends and clients under examples/ are programs of their
-- own, with which a gateway is tried out.
--
-- The files:
--   Base      names of the libraries passed on, tests on numbers and texts, maps as
--             association lists (Dict), decoded JSON (Json), reflect.DeepEqual on it (Equal),
--             results (Result), the first occurrence of a text in another (Cut).
--   Alias     `aliases` and `registerAliases` of cmd/pucora-ce/main.go: Defs the code, Loop
--             and Order what the loop over the map leaves, Refines the map against a
--             description that has neither map nor order.
--   Executor  executor.go: Collaborators the injected parts and the libraries, Config what is
--             read of the configuration, Event the calls that a run makes, Flow early returns
--             and deferred calls, Run `NewCmdExecutor`; Group, Gates, Counts, Schedule,
--             Correct, Stages, Reporting and Wiring its proofs; Usage
--             `usageReportingDisabled`, Report the goroutine of the usage report, Logging
--             `NewLogger`, Telemetry `MetricsAndTraces`, Rejecter `BloomFilterJWT`.
--   Plugin    plugin.go: Loader `LoadPluginsWithContext`, Check the three checks of a plugin,
--             Command `AddCheck` and `testPluginFunc`, Exit its proofs, Flags the command with
--             its flags.
--   Pipe      Tls is backend_client_tls.go (Tls/Own its proofs), Executor backend_factory.go, Handler
--             handler_factory.go and proxy_factory.go, Engine router_engine.go, Factories the
--             functions that they return. Layers says what a stack of middlewares does to a
--             request, without the order in which the code wraps them; Guards, Proxies and
--             Connectors see the stacks of the handler, the proxy and the backend that way,
--             and Route puts the three inside one another.
--   Harness   tests/integration.go: Config the options with their defaults, Ready
--             `waitForReady`, Startup `waitForStartup`, Runner `NewIntegration` and `Close`,
--             Response `assertResponse` and Assert its proofs, Check `newRequest` and
--             `Runner.Check`, Specs `readSpecs`, Cases `testCases`, Environ `getEnviron`, Mock
--             the mocked backend; Main is cmd/pucora-integration/main.go for any test cases
--             and any check, Suite for those of tests/integration.go, Session with the
--             configuration, the command that is built from it and the wait; Panics says when
--             `assertResponse` panics, Leftover and Crashing what the command leaves
--             running, Silence what becomes of the usage reports of a gateway that the harness
--             starts.
--   Gateway   `main` of cmd/pucora-ce/main.go with encoding.go and sd.go (Main), and the
--             goroutine that waits for a signal (Signal); Process puts it beside the executor,
--             Process/Ends says when the process returns.
--   Demo      examples: Common and Routes what `main` of the mocked backends does, Health the
--             health check beside the server, Streaming, Soap, Graphql, Websocket and Flights
--             their handlers (examples/*/mock-backend/main.go), Tokens the keys and tokens
--             (also examples/grpc/mock-jwt/main.go), Echo the conversation over WebSockets,
--             Smoke the client examples/websocket/smoke/main.go, Webhook the webhook
--             examples/pubsub/async-kafka/mock-webhook/main.go, with the register that its
--             handlers are to implement (Webhook/Spec).
--   The modules named Tests, Trials and Probes, with the data of those named Samples, hold concrete
--   collaborators and the theorems applied to them.
--
-- How the code is modelled. A run of the executor is the list of the calls that it makes, in
-- their order (Event); an early return ends the list and a deferred call is put at its end
-- (Flow). The two goroutines of the error group are interleaved by a schedule, a list of
-- Booleans that says at each turn which of them moves. The goroutine of the command
-- (Gateway/Signal) and the handlers of the webhook (Demo/Webhook) are step relations: every
-- access to what is shared is a step, and the steps are interleaved in any order; a mutex is a
-- Boolean that only its holder resets. The process of `pucora run` (Gateway/Process) makes the
-- calls of a run of the executor one at a time beside that goroutine; when a call comes to an
-- end, such as the one of the router, is a parameter. The context of the error group is
-- cancelled by `errgroup` at the error of the agents and closed by the executor after the
-- router has returned; that it ends with the context of the executor as well is no call. The
-- transports of HTTP clients stand in a heap, by their references. Code of other repositories
-- is a parameter: the records Libraries, LogLibraries, RejecterLibraries, TlsLibraries,
-- ClientLayers, BackendLayers, HandlerLayers, ProxyLayers, RunServerLayers, UsageLibraries,
-- Codecs, Http, Signing, Tools and Loaders, with Codec and Client in the examples and
-- CommandLibrary for the command line; HandlerModel, ProxyModel, BackendModel and RouteModel
-- say that the layers of a stack are middlewares. What is asked of them stands as a hypothesis
-- of the theorem that needs it. A Go map is an association list in the order in which the
-- runtime yields its entries. Errors are values.
--
-- Fuel. `wait_for_ready` polls with as much fuel as there are milliseconds of waiting, and one
-- more: a round takes a second or more, so that the deadline has passed before the fuel is
-- spent. All other definitions are structural recursions.
--
-- What is not modelled: the lines that the examples log; the generated code of the gRPC example; the
-- integration tests and the files that build and deploy the gateway.
pub mod Base
pub mod Alias
pub mod Executor
pub mod Plugin
pub mod Harness
pub mod Pipe
pub mod Gateway
pub mod Demo
