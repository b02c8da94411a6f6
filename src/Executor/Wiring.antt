-- ===== src/Executor/Wiring.antt =====
-- executor.go: what the router is run with.
use pucora_ce.Base.{
  String, Bool, true, false, List, [], ◌∷◌, ◌++◌, Option, none, some, ◌≡◌, refl, sym, arith, All,
  All-append, subst, Bool-cases, inl, inr,
}
use pucora_ce.Base.Result.{Result, ok, err}
use pucora_ce.Executor.Config.{ServiceConfig, AsyncAgent}
use pucora_ce.Executor.Collaborators.{Libraries, RouterConfig, ExecutorBuilder, Collaborators}
use pucora_ce.Executor.Event.{
  Event, count, is_router_run, logged, reporter_started, ttl_set, plugins_loaded,
  metrics_registered, metrics_closed, cacher_set, subscribers_registered, rejecter_made,
  agents_started, agents_returned, router_run, router_returned, group_cancelled, group_closed,
}
use pucora_ce.Executor.Flow.{Flow, go, halt, ◌>>=◌, ◌>>◌, emit_all, trace}
use pucora_ce.Executor.Run.{
  merge, launch, agents_ended, prepare, wire, serve, tasks, gin_task, waited, run_group,
  start_engines, run, execute, closers, returns, bootstrapped, services, log,
}
use pucora_ce.Executor.Gates.{
  validates, final_config, kafka_config, served, run_valid, run_invalid, prepare-router_run,
  count-services,
}
use pucora_ce.Executor.Counts.{closers-router_run, router_run-IsQuiet}
use pucora_ce.Executor.Correct.{team}

All-merge :
    {E : Type 0} (P : E → Type 0) (s : List Bool) (xs ys : List E)
    → All P xs
    → All P ys
    → All P (merge s xs ys)
unfolding merge
All-merge P [] xs ys h k = All-append P xs ys h k
All-merge P (_ ∷ s) [] ys h k = k
All-merge P (true ∷ s) (x ∷ xs) ys (p, h) k = (p, All-merge P s xs ys h k)
All-merge P (false ∷ s) (x ∷ xs) [] h k = h
All-merge P (false ∷ s) (x ∷ xs) (y ∷ ys) h (q, k) = (q, All-merge P s (x ∷ xs) ys h k)

All-launch :
    {E : Type 0} (P : E → Type 0) (b : Bool) (s : List Bool) (e : E) (xs ys : List E)
    → All P (e ∷ xs)
    → All P ys
    → All P (launch b s e xs ys)
unfolding launch
All-launch P true s e xs ys (p, h) k = (p, All-merge P s xs ys h k)
All-launch P false s e xs ys h k = All-merge P s (e ∷ xs) ys h k

module _ {L : Libraries} (W : RouterConfig L → ServiceConfig → Type 0) where
  -- The router is run with what is asked for.
  abbrev pub IsRunWith : Event L → Type 0
  IsRunWith (router_run ctx r cfg) = W r cfg
  IsRunWith _ = Unit

  other-IsRunWith : (e : Event L) → is_router_run e ≡ false → IsRunWith e
  other-IsRunWith (logged l m) h = tt
  other-IsRunWith (reporter_started s) h = tt
  other-IsRunWith (ttl_set n) h = tt
  other-IsRunWith (plugins_loaded l f p) h = tt
  other-IsRunWith (metrics_registered m) h = tt
  other-IsRunWith metrics_closed h = tt
  other-IsRunWith cacher_set h = tt
  other-IsRunWith (subscribers_registered s) h = tt
  other-IsRunWith (rejecter_made r) h = tt
  other-IsRunWith (agents_started c a) h = tt
  other-IsRunWith (agents_returned o) h = tt
  other-IsRunWith (router_run c r cfg) h = absurd (ground (arith, h))
  other-IsRunWith router_returned h = tt
  other-IsRunWith group_cancelled h = tt
  other-IsRunWith group_closed h = tt

  quiet-IsRunWith : (es : List (Event L)) → count is_router_run es ≡ 0 → All IsRunWith es
  quiet-IsRunWith [] h = tt
  quiet-IsRunWith (e ∷ es) h =
      (other-IsRunWith e (ground (arith, h)), quiet-IsRunWith es (ground (arith, h)))

  module _ (c : Collaborators L) where
    waited-IsRunWith : (e : Option String) → All IsRunWith (waited L c e)
    unfolding waited
    waited-IsRunWith none = tt
    waited-IsRunWith (some e) = (tt, tt)

    ended-IsRunWith : (o : Option String) → All IsRunWith (agents_ended L c o)
    unfolding agents_ended
    ended-IsRunWith none = (tt, tt)
    ended-IsRunWith (some e) = (tt, (tt, tt))

    start_engines-IsRunWith :
        (schedule : List Bool) (r : RouterConfig L) (cfg : ServiceConfig) (agents : List AsyncAgent)
        → W r cfg
        → All IsRunWith (start_engines L c schedule r cfg agents)
    unfolding start_engines run_group tasks gin_task log
    start_engines-IsRunWith schedule r cfg [] w = (w, (tt, tt))
    start_engines-IsRunWith schedule r cfg (_ ∷ _) w =
        All-append IsRunWith (tasks L c schedule r cfg) _
          (All-launch IsRunWith cfg.sequential_start schedule _ _ _
            (tt, ended-IsRunWith (c.agent_starter_factory cfg.async_agents r.proxy_factory))
            (tt, (w, (tt, (tt, tt)))))
          (waited-IsRunWith (L.group_wait (returns L c (tasks L c schedule r cfg))))

    bootstrapped-IsRunWith :
        (b : Result (Option L.GrpcRegistry × L.GrpcConfig))
        (f : Option L.GrpcRegistry × L.GrpcConfig → List (Event L))
        → ((x : Option L.GrpcRegistry × L.GrpcConfig) → b ≡ ok x → All IsRunWith (f x))
        → All IsRunWith (trace (bootstrapped L b >>= λ x. emit_all (f x)))
    unfolding bootstrapped log
    bootstrapped-IsRunWith (ok (none, g)) f h = h (none, g) refl
    bootstrapped-IsRunWith (ok (some r, g)) f h = (tt, h (some r, g) refl)
    bootstrapped-IsRunWith (err e) f h = (tt, tt)

    trace-emit_all :
        (es : List (Event L)) (k : Flow (Event L) (Unit {0}))
        → trace (emit_all es >> k) ≡ es ++ trace k
    trace-emit_all es (go fs _) = refl
    trace-emit_all es (halt fs) = refl

    serve-IsRunWith :
        (schedule : List Bool) (w : L.Writer) (cfg : ServiceConfig) (m : L.Metrics)
        → ((booted : Option L.GrpcRegistry × L.GrpcConfig)
            → L.bootstrap cfg ≡ ok booted
            → W
                (wire L c w cfg m
                  (c.token_rejecter_factory cfg (c.subscriber_factories_register cfg)).0
                  booted)
                cfg)
        → All IsRunWith (trace (serve L c schedule w cfg m))
    unfolding serve log
    serve-IsRunWith schedule w cfg m h =
        subst (All IsRunWith) (sym (trace-emit_all (services L c cfg) _)) (
          All-append IsRunWith (services L c cfg) _
            (quiet-IsRunWith (services L c cfg)
              (count-services is_router_run (router_run-IsQuiet L) c cfg))
            (bootstrapped-IsRunWith (L.bootstrap cfg) _ (λ booted e.
              (tt, start_engines-IsRunWith schedule _ cfg cfg.async_agents (h booted e)))))

-- The configuration of a router, made by the collaborators of the validated configuration: the layers of
-- OpenTelemetry lie around the proxy and the handler factory, and the run server of the collaborators
-- lies around the one of gRPC, for what the bootstrap gave.
pub record IsWired {L : Libraries} (c : Collaborators L) (w : L.Writer) (cfg : ServiceConfig)
    (r : RouterConfig L) (used : ServiceConfig) : Type 0 where
  pub booted : Option L.GrpcRegistry × L.GrpcConfig
  pub bootstrap : L.bootstrap cfg ≡ ok booted
  pub config : used ≡ cfg
  pub engine : r.engine ≡ c.engine_factory cfg w
  pub middlewares : r.middlewares ≡ c.middlewares
  pub proxies :
      let m = c.metrics_and_traces_register.register cfg in
      r.proxy_factory ≡ L.otel_proxy (c.proxy_factory (c.backend_factory m) m)
  pub handlers :
      let m = c.metrics_and_traces_register.register cfg in
      let rejecter = (c.token_rejecter_factory cfg (c.subscriber_factories_register cfg)).0 in
      r.handler_factory ≡ L.otel_handler (c.handler_factory m rejecter cfg)
  pub run_server :
      let rejecter = (c.token_rejecter_factory cfg (c.subscriber_factories_register cfg)).0 in
      r.run_server
      ≡ c.run_server_factory (
          L.grpc_run_server booted.0 booted.1 r.proxy_factory rejecter
            (L.otel_run_server L.run_server_with_logger))

module _ (L : Libraries) (c : Collaborators L) (cfg : ServiceConfig) where
  -- What the writer of the logger and the validated configuration ask for.
  abbrev pub Wiring : RouterConfig L → ServiceConfig → Type 0
  Wiring = IsWired c (c.logger_factory (kafka_config L c cfg)).0 (final_config L c cfg)

  wire-IsWired :
      (w : L.Writer) (cfg' : ServiceConfig) (booted : Option L.GrpcRegistry × L.GrpcConfig)
      → L.bootstrap cfg' ≡ ok booted
      → IsWired c w cfg'
          (wire L c w cfg'
            (c.metrics_and_traces_register.register cfg')
            (c.token_rejecter_factory cfg' (c.subscriber_factories_register cfg')).0
            booted)
          cfg'
  unfolding wire
  wire-IsWired w cfg' (registry, grpc) e = record {
    booted = (registry, grpc);
    bootstrap = e;
    config = refl;
    engine = refl;
    middlewares = refl;
    proxies = refl;
    handlers = refl;
    run_server = refl;
  }

  run-IsRunWith : (schedule : List Bool) → All (IsRunWith Wiring) (trace (run L c schedule cfg))
  run-IsRunWith schedule =
      let prepared =
        quiet-IsRunWith Wiring (trace (prepare L c cfg)) (prepare-router_run L c cfg) in
      elim (Bool-cases (validates L c cfg)) [
        | inl valid ↦ subst (All (IsRunWith Wiring)) (sym (run_valid L c schedule cfg valid)) (
            All-append (IsRunWith Wiring) (trace (prepare L c cfg)) _ prepared (
              tt,
              All-append (IsRunWith Wiring) (served L c schedule cfg) (closers L c)
                  (serve-IsRunWith Wiring c schedule _ _ _ (wire-IsWired _ (final_config L c cfg)))
                  (quiet-IsRunWith Wiring (closers L c) (closers-router_run L c)),
            ))
        | inr invalid ↦
            subst (All (IsRunWith Wiring)) (sym (run_invalid L c schedule cfg invalid)) prepared
      ]

-- Under every schedule the router, whenever it is run, is run with the validated configuration and with
-- the factories that the collaborators make for it: the layers of OpenTelemetry lie around the proxy
-- and the handler factory, and the run server of the collaborators around the one of gRPC, which the
-- bootstrap has configured.
pub execute-IsRunWith :
    (L : Libraries) (defaults : Collaborators L) (e : ExecutorBuilder L) (schedule : List Bool)
    (cfg : ServiceConfig)
    → All
        (IsRunWith (Wiring L (team L defaults e schedule cfg) cfg))
        (execute L defaults e schedule cfg)
unfolding execute
execute-IsRunWith L defaults e schedule cfg =
    run-IsRunWith L (team L defaults e schedule cfg) cfg schedule
