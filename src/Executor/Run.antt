-- ===== src/Executor/Run.antt =====
-- executor.go: `startReporter` up to its goroutine, and the function that `NewCmdExecutor` returns.
use pucora_ce.Base.{String, ◌<>◌, Bool, true, false, List, [], ◌∷◌, ◌++◌, Option, none, some}
use pucora_ce.Base.{if◌then◌else◌}
use pucora_ce.Executor.Config.{ServiceConfig, AsyncAgent, PluginConfig}
use pucora_ce.Executor.Collaborators.{
  Libraries, Problem, sentinel, failed, RouterConfig, ExecutorBuilder, new_builder, Collaborators,
  check_collaborators,
}
use pucora_ce.Base.Result.{Result, ok, err}
use pucora_ce.Executor.Event.{
  Event, Level, debug, info, warning, error, Context, service_context, group_context, logged,
  reporter_started, ttl_set, plugins_loaded, metrics_registered, metrics_closed, cacher_set,
  subscribers_registered, rejecter_made, agents_started, agents_returned, router_run,
  router_returned, group_cancelled, group_closed,
}
use pucora_ce.Executor.Flow.{Flow, go, halt, ◌>>=◌, ◌>>◌, emit_all, trace, deferring}
use pucora_ce.Executor.Usage.{usage_reporting_disabled}

-- Two goroutines that run to their ends: at each turn the schedule says whether the first moves.
-- When the schedule is over, what is left of the first comes before what is left of the second.
unfoldable pub merge : {E : Type 0} → List Bool → List E → List E → List E
merge [] xs ys = xs ++ ys
merge (_ ∷ s) [] ys = ys
merge (true ∷ s) (x ∷ xs) ys = x ∷ merge s xs ys
merge (false ∷ s) (x ∷ xs) [] = x ∷ xs
merge (false ∷ s) (x ∷ xs) (y ∷ ys) = y ∷ merge s (x ∷ xs) ys

-- The start of the agents stands before the goroutines if the configuration asks for it, and
-- otherwise in the first of them.
unfoldable pub launch : {E : Type 0} → Bool → List Bool → E → List E → List E → List E
unfolding merge
launch true schedule start agents router = start ∷ merge schedule agents router
launch false schedule start agents router = merge schedule (start ∷ agents) router

-- A call that may fail with the configuration, as `ValidateConfig(&cfg)`.
abbrev pub config_error {ℓ} : {A : Type ℓ} → A × Option String → Bool
config_error (a, none) = false
config_error (a, some e) = true

module _ (L : Libraries) where
  unfoldable pub log : Level → List String → List (Event L)
  log level message = logged level message ∷ []

  unfoldable pub start_reporter : ServiceConfig → List (Event L)
  unfolding log
  start_reporter cfg =
      if usage_reporting_disabled L.getenv cfg.extra_config then [] else elim (L.hash cfg) [
        | ok cluster_id ↦ reporter_started cluster_id ∷ []
        | err e ↦
            log debug ("[SERVICE: Telemetry]" ∷ "Unable to create the Cluster ID hash:" ∷ e ∷ [])
      ]

  unfoldable pub working_directory : Result String → List (Event L)
  unfolding log
  working_directory (ok wd) = log info ("Working directory is" ∷ wd ∷ [])
  working_directory (err e) = []

  -- An error that is worth a line, unless it is the sentinel for a missing configuration.
  unfoldable pub report_problem : Level → String → Option Problem → List (Event L)
  unfolding log
  report_problem level tag none = []
  report_problem level tag (some sentinel) = []
  report_problem level tag (some (failed e)) = log level (tag ∷ e ∷ [])

  -- `if err := pkg.ValidateConfig(&cfg); err != nil { logger.Error(tag, err.Error()); return }`
  unfoldable pub validated : String → ServiceConfig × Option String → Flow (Event L) ServiceConfig
  unfolding log
  validated tag (cfg, none) = go [] cfg
  validated tag (cfg, some e) = halt (log error (tag ∷ e ∷ []))

  unfoldable pub bootstrapped :
      Result (Option L.GrpcRegistry × L.GrpcConfig)
      → Flow (Event L) (Option L.GrpcRegistry × L.GrpcConfig)
  unfolding log
  bootstrapped (ok (none, c)) = go [] (none, c)
  bootstrapped (ok (some r, c)) =
      go (log info ("[SERVICE: gRPC]" ∷ "catalog loaded" ∷ [])) (some r, c)
  bootstrapped (err e) = halt (log error ("[SERVICE: gRPC]" ∷ e ∷ []))

  module _ (c : Collaborators L) where
    unfoldable pub open_logger : L.Writer × Option String → Flow (Event L) L.Writer
    open_logger (w, none) = go [] w
    open_logger (w, some e) = halt []

    unfoldable pub load_plugins : Option PluginConfig → List (Event L)
    load_plugins none = []
    load_plugins (some p) = plugins_loaded c.plugin_loader_with_context p.folder p.pattern ∷ []

    -- From the start up to the registration of the metrics.
    unfoldable pub prepare : ServiceConfig → Flow (Event L) (L.Writer × ServiceConfig)
    unfolding log start_reporter working_directory validated open_logger load_plugins
    prepare cfg₀ = do
      let cfg₁ = L.normalize cfg₀
      writer ← open_logger (c.logger_factory cfg₁)
      cfg₂ ← validated "[SERVICE: Kafka]" (L.validate_kafka cfg₁)
      cfg ← validated "[SERVICE: SOAP]" (L.validate_soap cfg₂)
      emit_all (log info (("Starting Pucora v" <> L.version) ∷ []))
      emit_all (start_reporter cfg)
      emit_all (working_directory L.getwd)
      emit_all (ttl_set cfg.dns_cache_ttl ∷ [])
      emit_all (load_plugins cfg.plugin)
      go [] (writer, cfg)

    -- The functions of the error group, and what it returned when both have ended.
    unfoldable pub router_task : Context → RouterConfig L → ServiceConfig → List (Event L)
    router_task ctx r cfg = router_run ctx r cfg ∷ router_returned ∷ []

    -- What the call that ends a function of the group makes it return.
    unfoldable pub returned : Event L → Option (Option String)
    returned (agents_returned e) = some e
    returned group_closed = some none
    returned _ = none

    -- The values that the functions of the group return, in the order in which they return.
    unfoldable pub returns : List (Event L) → List (Option String)
    returns [] = []
    returns (e ∷ es) =
        let rest = returns es in elim (returned e) [ none ↦ rest | some r ↦ r ∷ rest ]

    unfoldable pub waited : Option String → List (Event L)
    unfolding log
    waited none = []
    waited (some e) = log error ("[SERVICE: Async]" ∷ e ∷ [])

    unfoldable pub gin_task : RouterConfig L → ServiceConfig → List (Event L)
    unfolding log router_task
    gin_task r cfg =
        log info ("[SERVICE: Gin] Building the router" ∷ [])
        ++ (router_task group_context r cfg ++ (group_closed ∷ []))

    -- The return of the agents; `errgroup.WithContext` cancels the context of the group at their error,
    -- which is the first one, since the other function returns none.
    unfoldable pub agents_ended : Option String → List (Event L)
    agents_ended none = agents_returned none ∷ []
    agents_ended (some e) = agents_returned (some e) ∷ group_cancelled ∷ []

    -- The two goroutines from the moment that `g.Go` has started them. The context of the group is
    -- also cancelled with the one of the executor, at any time: that is no call of the executor, and
    -- what the router and the agents do then is theirs.
    unfoldable pub tasks : List Bool → RouterConfig L → ServiceConfig → List (Event L)
    unfolding gin_task launch agents_ended
    tasks schedule r cfg =
        let result = c.agent_starter_factory cfg.async_agents r.proxy_factory in
        launch cfg.sequential_start schedule (agents_started group_context cfg.async_agents)
          (agents_ended result) (gin_task r cfg)

    unfoldable pub run_group : List Bool → RouterConfig L → ServiceConfig → List (Event L)
    run_group schedule r cfg =
        let es = tasks schedule r cfg in es ++ waited (L.group_wait (returns es))

    unfoldable pub start_engines :
        List Bool → RouterConfig L → ServiceConfig → List AsyncAgent → List (Event L)
    unfolding run_group router_task
    start_engines schedule r cfg [] = router_task service_context r cfg
    start_engines schedule r cfg (_ ∷ _) = run_group schedule r cfg

    -- The calls between the registration of the metrics and the gRPC bootstrap.
    unfoldable pub services : ServiceConfig → List (Event L)
    unfolding log report_problem
    services cfg =
        let subscribe = c.subscriber_factories_register cfg in
        let (rejecter, problem) = c.token_rejecter_factory cfg subscribe in
        (cacher_set ∷ report_problem error "[SERVICE: JOSE]" (L.set_global_cacher cfg.extra_config))
        ++ ((subscribers_registered subscribe ∷ rejecter_made rejecter ∷ [])
            ++ report_problem warning "[SERVICE: Bloomfilter]" problem)

    -- The factories, wrapped in the order of the source, and what the router gets of them.
    unfoldable pub wire :
        L.Writer
        → ServiceConfig
        → L.Metrics
        → L.RejecterFactory
        → Option L.GrpcRegistry × L.GrpcConfig
        → RouterConfig L
    wire writer cfg metrics rejecter (registry, grpc_config) =
        let bpf = c.backend_factory metrics in
        let pf = L.otel_proxy (c.proxy_factory bpf metrics) in
        let served = L.otel_run_server L.run_server_with_logger in
        let chain = L.grpc_run_server registry grpc_config pf rejecter served in
        record {
          engine = c.engine_factory cfg writer;
          proxy_factory = pf;
          middlewares = c.middlewares;
          handler_factory = L.otel_handler (c.handler_factory metrics rejecter cfg);
          run_server = c.run_server_factory chain;
        }

    -- From the registration of the metrics on; the deferred call is not in it.
    unfoldable pub serve :
        List Bool → L.Writer → ServiceConfig → L.Metrics → Flow (Event L) (Unit {0})
    unfolding log services bootstrapped start_engines
    serve schedule writer cfg metrics = do
      emit_all (services cfg)
      booted ← bootstrapped (L.bootstrap cfg)
      let rejecter = (c.token_rejecter_factory cfg (c.subscriber_factories_register cfg)).0
      let r = wire writer cfg metrics rejecter booted
      emit_all (
          log info ("Starting the Pucora instance" ∷ [])
          ++ start_engines schedule r cfg cfg.async_agents)

    unfoldable pub closers : List (Event L)
    closers = if c.metrics_and_traces_register.is_closer then metrics_closed ∷ [] else []

    -- From the registration of the metrics to the return, the deferred call last.
    unfoldable pub supervise : List Bool → L.Writer × ServiceConfig → Flow (Event L) (Unit {0})
    supervise schedule (writer, cfg) = do
      let metrics = c.metrics_and_traces_register.register cfg
      emit_all (metrics_registered metrics ∷ [])
      deferring closers (serve schedule writer cfg metrics)

    unfoldable pub run : List Bool → ServiceConfig → Flow (Event L) (Unit {0})
    run schedule cfg₀ = prepare cfg₀ >>= supervise schedule

  -- The executor that `NewCmdExecutor` builds, run on a configuration.
  unfoldable pub execute :
      Collaborators L → ExecutorBuilder L → List Bool → ServiceConfig → List (Event L)
  execute defaults e schedule cfg = trace (run (check_collaborators L defaults e) schedule cfg)

  -- `NewExecutor`
  unfoldable pub new_executor : Collaborators L → List Bool → ServiceConfig → List (Event L)
  new_executor defaults schedule cfg = execute defaults (new_builder L) schedule cfg
