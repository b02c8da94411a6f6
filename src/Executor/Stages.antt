-- ===== src/Executor/Stages.antt =====
-- executor.go: the stages of a run, before and after the metrics are registered.
use pucora_ce.Base.{if◌then◌else◌, Bool, true, List, [], ◌∷◌, ◌++◌, ◌≡◌, ◌∙◌, arith}
use pucora_ce.Executor.Config.{ServiceConfig}
use pucora_ce.Executor.Collaborators.{
  Libraries, RouterConfig, ExecutorBuilder, new_builder, Collaborators, check_collaborators,
  metrics_and_traces,
}
use pucora_ce.Executor.Event.{
  Event, count, is_router_run, is_metrics_registered, is_metrics_closed, is_plugins_loaded,
  metrics_registered, metrics_closed,
}
use pucora_ce.Executor.Flow.{trace}
use pucora_ce.Executor.Run.{prepare, run, execute, new_executor, start_engines, closers}
use pucora_ce.Executor.Group.{
  start_engines-metrics_registered, start_engines-metrics_closed, start_engines-plugins_loaded,
}
use pucora_ce.Executor.Gates.{
  IsQuiet, validates, kafka_config, final_config, metrics_of, served, run_valid, count-serve,
  prepare-router_run, prepare-metrics_registered, prepare-metrics_closed,
}
use pucora_ce.Executor.Counts.{
  count-run, closers-metrics_closed, metrics_registered-IsQuiet, metrics_closed-IsQuiet,
  plugins_loaded-IsQuiet,
}
use pucora_ce.Executor.Correct.{team}

-- What is before and what is after the registration of the metrics, up to their closing.
pub record IsStaged {L : Libraries} (before after : List (Event L)) : Type 0 where
  pub registered_before : count is_metrics_registered before ≡ 0
  pub registered_after : count is_metrics_registered after ≡ 0
  pub closed_before : count is_metrics_closed before ≡ 0
  pub closed_after : count is_metrics_closed after ≡ 0
  pub loaded_after : count is_plugins_loaded after ≡ 0
  pub run_before : count is_router_run before ≡ 0

module _ (L : Libraries) (c : Collaborators L) (schedule : List Bool) (cfg : ServiceConfig) where
  count-served :
      (p : Event L → Bool)
      → IsQuiet p
      → ((r : RouterConfig L)
          → count p (
              start_engines L c schedule r
                (final_config L c cfg)
                (final_config L c cfg).async_agents)
            ≡ 0)
      → count p (served L c schedule cfg) ≡ 0
  count-served p quiet engines =
      count-serve p quiet c schedule (c.logger_factory (kafka_config L c cfg)).0
        (final_config L c cfg) (metrics_of L c cfg) 0 engines
      ∙ ground arith

  prepare-IsStaged : IsStaged (trace (prepare L c cfg)) (served L c schedule cfg)
  prepare-IsStaged =
      let final = final_config L c cfg in
      record {
        registered_before = prepare-metrics_registered L c cfg;
        registered_after =
            count-served is_metrics_registered (metrics_registered-IsQuiet L)
              (λ r. start_engines-metrics_registered L c schedule r final final.async_agents);
        closed_before = prepare-metrics_closed L c cfg;
        closed_after =
            count-served is_metrics_closed (metrics_closed-IsQuiet L)
              (λ r. start_engines-metrics_closed L c schedule r final final.async_agents);
        loaded_after =
            count-served is_plugins_loaded (plugins_loaded-IsQuiet L)
              (λ r. start_engines-plugins_loaded L c schedule r final final.async_agents);
        run_before = prepare-router_run L c cfg;
      }

  run_lem :
      validates L c cfg ≡ true
      → trace (run L c schedule cfg)
        ≡ trace (prepare L c cfg)
          ++ (metrics_registered (metrics_of L c cfg)
              ∷ (served L c schedule cfg
                  ++ (if c.metrics_and_traces_register.is_closer then metrics_closed ∷ [] else [])))
  unfolding closers
  run_lem valid = run_valid L c schedule cfg valid

-- When the logger opens and both validations succeed, a run under any schedule has two stages: the
-- metrics are registered between them and nowhere else. If the metrics register is an `io.Closer`, they
-- are closed at the end and nowhere else, and otherwise nowhere. The plugins are loaded in the first
-- stage only, and the router is run in the second only.
pub execute-stages :
    (L : Libraries) (defaults : Collaborators L) (e : ExecutorBuilder L) (schedule : List Bool)
    (cfg : ServiceConfig)
    → validates L (team L defaults e schedule cfg) cfg ≡ true
    → let c = team L defaults e schedule cfg in
      (before : List (Event L)) × (after : List (Event L)) × (execute L defaults e schedule cfg
        ≡ before
          ++ (metrics_registered (metrics_of L c cfg)
              ∷ (after
                  ++ (if c.metrics_and_traces_register.is_closer
                      then metrics_closed ∷ []
                      else []))))
      × IsStaged before after
unfolding execute
execute-stages L defaults e schedule cfg valid =
    let c = team L defaults e schedule cfg in
    (
      trace (prepare L c cfg),
      served L c schedule cfg,
      run_lem L c schedule cfg valid,
      prepare-IsStaged L c schedule cfg,
    )

-- An executor that `NewExecutor` makes, whose register of metrics is the one of the package, never
-- closes the metrics, under any schedule and with any configuration.
pub new_executor-metrics_closed :
    (L : Libraries) (defaults : Collaborators L) (register : ServiceConfig → L.Metrics)
    (schedule : List Bool) (cfg : ServiceConfig)
    → count is_metrics_closed (
        new_executor L
          (record defaults { metrics_and_traces_register = metrics_and_traces L register })
          schedule
          cfg)
      ≡ 0
unfolding new_executor execute check_collaborators
new_executor-metrics_closed L defaults register schedule cfg =
    let d = record defaults { metrics_and_traces_register = metrics_and_traces L register } in
    let c = check_collaborators L d (new_builder L) in
    ground (
      arith,
      count-run L c schedule cfg is_metrics_closed 0 (metrics_closed-IsQuiet L) (λ r.
          start_engines-metrics_closed L c schedule r (final_config L c cfg)
            (final_config L c cfg).async_agents),
      prepare-metrics_closed L c cfg,
      closers-metrics_closed L c,
    )
