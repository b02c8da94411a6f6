-- ===== src/Executor/Tests.antt =====
-- The runs of the gateway that concrete collaborators make.
use pucora_ce.Base.{All, String, true, false, List, [], ◌∷◌, ◌++◌, some, ◌≡◌, refl}
use pucora_ce.Base.{inl, inr}
use pucora_ce.Base.Json.{Fields, end, field, obj, bool, get}
use pucora_ce.Base.Result.{err}
use pucora_ce.Executor.Collaborators.{
  sentinel, failed, check_collaborators, metrics_and_traces, ExecutorBuilder,
}
use pucora_ce.Executor.Event.{
  Event, count, is_router_run, is_plugins_loaded, metrics_closed, metrics_registered,
  is_metrics_closed,
}
use pucora_ce.Executor.Run.{execute, new_executor, run_group, tasks, waited}
use pucora_ce.Executor.Correct.{execute-gates, team}
use pucora_ce.Executor.Gates.{metrics_of}
use pucora_ce.Executor.Stages.{IsStaged, execute-stages, new_executor-metrics_closed}
use pucora_ce.Executor.Schedule.{run_group_error}
use pucora_ce.Executor.Usage.{usage_reporting_disabled, usage_reporting_disabled_iff}
use pucora_ce.Executor.Logging.{LogLibraries, opened, refused, new_logger, new_logger_error_iff}
use pucora_ce.Executor.Wiring.{IsRunWith, Wiring, execute-IsRunWith}
use pucora_ce.Executor.Samples.{libraries, defaults, no_builder, config, schedule, router_config}

execute-gates_example :
    (count is_router_run (execute libraries defaults no_builder schedule config) ≡ 1)
    × (count is_plugins_loaded (execute libraries defaults no_builder schedule config) ≡ 1)
unfolding check_collaborators
execute-gates_example = execute-gates libraries defaults no_builder schedule config

-- A builder with a register of metrics that can be closed.
abbrev closing_builder : ExecutorBuilder libraries
closing_builder = record no_builder {
  metrics_and_traces_register = some (record { register = λ cfg. "own metrics"; is_closer = true });
}

execute-stages_example :
    (before : List (Event libraries)) × (after : List (Event libraries)) × (execute libraries
        defaults closing_builder schedule config
      ≡ before
        ++ (metrics_registered (
              metrics_of libraries (team libraries defaults closing_builder schedule config) config)
            ∷ (after ++ (metrics_closed ∷ []))))
    × IsStaged before after
unfolding check_collaborators
execute-stages_example = execute-stages libraries defaults closing_builder schedule config refl

new_executor-metrics_closed_example :
    count is_metrics_closed (
      new_executor libraries
        (record defaults {
          metrics_and_traces_register = metrics_and_traces libraries (λ cfg. "metrics");
        })
        schedule
        config)
    ≡ 0
new_executor-metrics_closed_example =
    new_executor-metrics_closed libraries defaults (λ cfg. "metrics") schedule config

run_group_error_example :
    run_group libraries defaults schedule router_config config
    ≡ tasks libraries defaults schedule router_config config
      ++ waited libraries defaults (some "no broker")
run_group_error_example =
    run_group_error libraries defaults schedule router_config config (λ rs. refl)

abbrev usage_off : Fields
usage_off = field "telemetry/usage" (obj (field "enabled" (bool false) end)) end

usage_reporting_disabled_iff_example : usage_reporting_disabled (λ _. "") usage_off ≡ true
unfolding get
usage_reporting_disabled_iff_example =
    (usage_reporting_disabled_iff (λ _. "") usage_off).1
      (inr (field "enabled" (bool false) end, refl, inl refl))

abbrev no_loggers : LogLibraries
no_loggers = record {
  Logger = String;
  Writer = String;
  open_gelf = λ extra. opened "gelf";
  open_logstash = λ extra. refused sentinel;
  open_gologging = λ extra writers. refused (failed "no level");
  open_default = err "no output";
}

new_logger_error_iff_example : (new_logger no_loggers end).logger ≡ err "no output"
new_logger_error_iff_example =
    (new_logger_error_iff no_loggers end "no output").1
      ((sentinel, refl), (failed "no level", refl), refl)

execute-IsRunWith_example :
    All
      (IsRunWith (Wiring libraries (team libraries defaults no_builder schedule config) config))
      (execute libraries defaults no_builder schedule config)
execute-IsRunWith_example = execute-IsRunWith libraries defaults no_builder schedule config
