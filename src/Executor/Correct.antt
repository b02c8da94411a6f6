-- ===== src/Executor/Correct.antt =====
-- What a run of the executor does and does not do, whatever the collaborators answer and however
-- the goroutines are scheduled.
use pucora_ce.Base.{Bool, ◌&&◌, List, ◌≡◌}
use pucora_ce.Base.{arith, if◌then◌else◌, is_some}
use pucora_ce.Executor.Config.{ServiceConfig}
use pucora_ce.Executor.Collaborators.{
  Libraries, ExecutorBuilder, Collaborators, check_collaborators,
}
use pucora_ce.Executor.Event.{count, is_router_run, is_plugins_loaded}
use pucora_ce.Executor.Counts.{
  count-run, router_run-IsQuiet, plugins_loaded-IsQuiet, closers-router_run, closers-plugins_loaded,
}
use pucora_ce.Executor.Run.{execute}
use pucora_ce.Executor.Group.{start_engines-router_run, start_engines-plugins_loaded}
use pucora_ce.Executor.Gates.{
  validates, boots, final_config, prepare-router_run, prepare-plugins_loaded,
}

module _ (L : Libraries) (defaults : Collaborators L) (e : ExecutorBuilder L) (schedule : List Bool)
    (cfg : ServiceConfig) where
  abbrev pub team : Collaborators L
  team = check_collaborators L defaults e

  -- Under every schedule the router is run once if the logger opens, both validations succeed and
  -- the gRPC bootstrap succeeds, and never otherwise.
  execute-router_run :
      count is_router_run (execute L defaults e schedule cfg)
      ≡ (if validates L team cfg && boots L team cfg then 1 else 0)
  unfolding execute
  execute-router_run = ground (
    arith,
    count-run L team schedule cfg is_router_run 1 (router_run-IsQuiet L) (λ r.
        start_engines-router_run L team schedule r (final_config L team cfg)
          (final_config L team cfg).async_agents),
    prepare-router_run L team cfg,
    closers-router_run L team,
  )

  -- The plugins are loaded once if the logger opens, both validations succeed and the validated
  -- configuration has a section for plugins, and never otherwise.
  execute-plugins_loaded :
      count is_plugins_loaded (execute L defaults e schedule cfg)
      ≡ (if validates L team cfg && is_some (final_config L team cfg).plugin then 1 else 0)
  unfolding execute
  execute-plugins_loaded = ground (
    arith,
    count-run L team schedule cfg is_plugins_loaded 0 (plugins_loaded-IsQuiet L) (λ r.
        start_engines-plugins_loaded L team schedule r (final_config L team cfg)
          (final_config L team cfg).async_agents),
    prepare-plugins_loaded L team cfg,
    closers-plugins_loaded L team,
  )

  -- The router is run once if the logger opens, both validations and the gRPC bootstrap succeed,
  -- and the plugins are loaded once if the logger opens, both validations succeed and the validated
  -- configuration has a section for plugins; otherwise neither happens, under any schedule.
  pub execute-gates :
      (count is_router_run (execute L defaults e schedule cfg)
        ≡ (if validates L team cfg && boots L team cfg then 1 else 0))
      × (count is_plugins_loaded (execute L defaults e schedule cfg)
          ≡ (if validates L team cfg && is_some (final_config L team cfg).plugin then 1 else 0))
  execute-gates = (execute-router_run, execute-plugins_loaded)
