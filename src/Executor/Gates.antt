-- ===== src/Executor/Gates.antt =====
-- What has to hold for the executor to get as far as the router: its early returns.
use Prim.Native.Nat.add
use pucora_ce.Base.{ℕ, ◌+◌, String, Bool, true, false, not, ◌&&◌, List, [], ◌∷◌, ◌++◌, ◌≡◌, refl}
use pucora_ce.Base.{Option, none, some, arith, if◌then◌else◌, is_some, ap, ◌∙◌}
use pucora_ce.Executor.Config.{ServiceConfig}
use pucora_ce.Executor.Collaborators.{
  Libraries, Problem, sentinel, failed, RouterConfig, Collaborators,
}
use pucora_ce.Base.Result.{Result, ok, err, is_ok}
use pucora_ce.Executor.Event.{
  Event, count, count-append, is_router_run, is_metrics_registered, is_metrics_closed,
  is_plugins_loaded, Level, logged, cacher_set, subscribers_registered, rejecter_made,
  metrics_registered,
}
use pucora_ce.Executor.Flow.{◌>>=◌, ◌>>◌, emit_all, prepend, Flow, go, halt, trace, deferring}
use pucora_ce.Executor.Run.{
  log, report_problem, bootstrapped, prepare, serve, closers, run, config_error, start_engines,
  services, supervise,
}

module _ (L : Libraries) (c : Collaborators L) (cfg : ServiceConfig) where
  -- The configuration, as the two validations leave it.
  abbrev pub kafka_config : ServiceConfig
  kafka_config = L.normalize cfg

  abbrev pub soap_config : ServiceConfig
  soap_config = (L.validate_kafka kafka_config).0

  abbrev pub final_config : ServiceConfig
  final_config = (L.validate_soap soap_config).0

  -- The logger opens and both validations succeed.
  abbrev pub validates : Bool
  validates =
      not (config_error (c.logger_factory kafka_config))
      && (not (config_error (L.validate_kafka kafka_config))
          && not (config_error (L.validate_soap soap_config)))

  abbrev pub metrics_of : L.Metrics
  metrics_of = c.metrics_and_traces_register.register final_config

  abbrev pub boots : Bool
  boots = is_ok (L.bootstrap final_config)

  prepare_valid :
      validates ≡ true
      → prepare L c cfg
        ≡ go (trace (prepare L c cfg)) ((c.logger_factory kafka_config).0, final_config)
  unfolding prepare
  prepare_valid h = ground arith

  prepare_invalid : validates ≡ false → prepare L c cfg ≡ halt (trace (prepare L c cfg))
  unfolding prepare
  prepare_invalid h = ground arith

  pub prepare-router_run : count is_router_run (trace (prepare L c cfg)) ≡ 0
  unfolding prepare
  prepare-router_run = ground arith

  pub prepare-metrics_registered : count is_metrics_registered (trace (prepare L c cfg)) ≡ 0
  unfolding prepare
  prepare-metrics_registered = ground arith

  pub prepare-metrics_closed : count is_metrics_closed (trace (prepare L c cfg)) ≡ 0
  unfolding prepare
  prepare-metrics_closed = ground arith

  pub prepare-plugins_loaded :
      count is_plugins_loaded (trace (prepare L c cfg))
      ≡ (if validates && is_some final_config.plugin then 1 else 0)
  unfolding prepare
  prepare-plugins_loaded = ground arith

count-emit_all :
    {E : Type 0} (p : E → Bool) (es : List E) (k : Flow E (Unit {0}))
    → count p (trace (emit_all es >> k)) ≡ count p es + count p (trace k)
count-emit_all p es (go fs _) = count-append p es fs
count-emit_all p es (halt fs) = count-append p es fs

-- A deferred call is made last, on every path.
trace-prepend :
    {E : Type 0} (es : List E) (k : Flow E (Unit {0})) → trace (prepend es k) ≡ es ++ trace k
trace-prepend es (go fs _) = refl
trace-prepend es (halt fs) = refl

trace-deferring :
    {E : Type 0} (e : E) (ds : List E) (k : Flow E (Unit {0}))
    → trace (emit_all (e ∷ []) >> deferring ds k) ≡ e ∷ (trace k ++ ds)
trace-deferring e ds (go es _) = refl
trace-deferring e ds (halt es) = refl

-- A test that is false of the calls between the registration of the metrics and the engines.
pub record IsQuiet {L : Libraries} (p : Event L → Bool) : Type 0 where
  pub log_line : (l : Level) (m : List String) → p (logged l m) ≡ false
  pub cacher : p cacher_set ≡ false
  pub subscribers : (s : L.Subscribe) → p (subscribers_registered s) ≡ false
  pub rejecter : (r : L.RejecterFactory) → p (rejecter_made r) ≡ false

module _ {L : Libraries} (p : Event L → Bool) (quiet : IsQuiet p) where
  count-bootstrapped :
      (b : Result (Option L.GrpcRegistry × L.GrpcConfig))
      (f : Option L.GrpcRegistry × L.GrpcConfig → List (Event L)) (n : ℕ)
      → ((x : Option L.GrpcRegistry × L.GrpcConfig) → count p (f x) ≡ n)
      → count p (trace (bootstrapped L b >>= λ x. emit_all (f x))) ≡ (if is_ok b then n else 0)
  unfolding bootstrapped
  count-bootstrapped (ok (none, c)) f n h = h (none, c)
  count-bootstrapped (ok (some r, c)) f n h = rw quiet.log_line (omega (arith, h (some r, c)))
  count-bootstrapped (err e) f n h = rw quiet.log_line (omega arith)

  count-report_problem :
      (l : Level) (tag : String) (o : Option Problem) → count p (report_problem L l tag o) ≡ 0
  unfolding report_problem
  count-report_problem l tag none = refl
  count-report_problem l tag (some sentinel) = refl
  count-report_problem l tag (some (failed e)) = rw quiet.log_line (omega arith)

  pub count-services : (c : Collaborators L) (cfg : ServiceConfig) → count p (services L c cfg) ≡ 0
  unfolding services
  count-services c cfg =
      simp (quiet.cacher, quiet.subscribers, quiet.rejecter, count-append, count-report_problem)
        (omega arith)

  count-log :
      (l : Level) (m : List String) (es : List (Event L)) → count p (log L l m ++ es) ≡ count p es
  unfolding log
  count-log l m es = rw quiet.log_line (omega arith)

  pub count-serve :
      (c : Collaborators L) (schedule : List Bool) (w : L.Writer) (cfg : ServiceConfig)
      (m : L.Metrics) (n : ℕ)
      → ((r : RouterConfig L) → count p (start_engines L c schedule r cfg cfg.async_agents) ≡ n)
      → count p (trace (serve L c schedule w cfg m)) ≡ (if is_ok (L.bootstrap cfg) then n else 0)
  unfolding serve
  count-serve c schedule w cfg m n engines =
      count-emit_all p (services L c cfg) _
      ∙ rw (count-services, add.zero)
          (count-bootstrapped (L.bootstrap cfg) _ n (λ x. count-log _ _ _ ∙ engines _))

-- The trace of a run, in the order of the calls.
module _ (L : Libraries) (c : Collaborators L) (schedule : List Bool) (cfg : ServiceConfig) where
  abbrev pub served : List (Event L)
  served = trace (
      serve L c schedule (c.logger_factory (kafka_config L c cfg)).0 (final_config L c cfg)
        (metrics_of L c cfg))

  supervise_lem :
      (w : L.Writer) (cfg' : ServiceConfig)
      → trace (supervise L c schedule (w, cfg'))
        ≡ metrics_registered (c.metrics_and_traces_register.register cfg')
          ∷ (trace (serve L c schedule w cfg' (c.metrics_and_traces_register.register cfg'))
              ++ closers L c)
  unfolding supervise
  supervise_lem w cfg' =
      let m = c.metrics_and_traces_register.register cfg' in
      trace-deferring (metrics_registered m) (closers L c) (serve L c schedule w cfg' m)

  pub run_valid :
      validates L c cfg ≡ true
      → trace (run L c schedule cfg)
        ≡ trace (prepare L c cfg)
          ++ (metrics_registered (metrics_of L c cfg) ∷ (served ++ closers L c))
  unfolding run
  run_valid valid =
      let w = (c.logger_factory (kafka_config L c cfg)).0 in
      ap (λ k. trace (k >>= supervise L c schedule)) (prepare_valid L c cfg valid)
      ∙ trace-prepend (trace (prepare L c cfg)) (supervise L c schedule (w, final_config L c cfg))
      ∙ ap (λ es. trace (prepare L c cfg) ++ es) (supervise_lem w (final_config L c cfg))

  pub run_invalid :
      validates L c cfg ≡ false → trace (run L c schedule cfg) ≡ trace (prepare L c cfg)
  unfolding run
  run_invalid invalid =
      ap (λ k. trace (k >>= supervise L c schedule)) (prepare_invalid L c cfg invalid)
