-- ===== src/Executor/Reporting.antt =====
-- executor.go: when the goroutine of the usage report is started.
use pucora_ce.Base.{
  String, Bool, not, ◌&&◌, List, [], ◌∷◌, Option, none, some, ◌≡◌, refl, arith, if◌then◌else◌,
}
use pucora_ce.Base.Result.{is_ok}
use pucora_ce.Executor.Config.{ServiceConfig, AsyncAgent}
use pucora_ce.Executor.Collaborators.{Libraries, RouterConfig, ExecutorBuilder, Collaborators}
use pucora_ce.Executor.Event.{count, is_reporter_started}
use pucora_ce.Executor.Flow.{trace}
use pucora_ce.Executor.Run.{
  prepare, closers, waited, agents_ended, gin_task, start_engines, execute,
}
use pucora_ce.Executor.Group.{count-run_group_of_none}
use pucora_ce.Executor.Gates.{IsQuiet, validates, final_config}
use pucora_ce.Executor.Counts.{count-run}
use pucora_ce.Executor.Correct.{team}
use pucora_ce.Executor.Usage.{usage_reporting_disabled}

reporter_started-IsQuiet : (L : Libraries) → IsQuiet {L = L} is_reporter_started
reporter_started-IsQuiet L = record {
  log_line = λ l m. refl;
  cacher = refl;
  subscribers = λ s. refl;
  rejecter = λ r. refl;
}

module _ (L : Libraries) where
  -- The report is not switched off, and the configuration can be hashed.
  abbrev pub reports : ServiceConfig → Bool
  reports cfg = not (usage_reporting_disabled L.getenv cfg.extra_config) && is_ok (L.hash cfg)

  module _ (c : Collaborators L) where
    waited-reporter_started : (e : Option String) → count is_reporter_started (waited L c e) ≡ 0
    unfolding waited
    waited-reporter_started none = refl
    waited-reporter_started (some e) = refl

    ended-reporter_started :
        (e : Option String) → count is_reporter_started (agents_ended L c e) ≡ 0
    unfolding agents_ended
    ended-reporter_started none = refl
    ended-reporter_started (some e) = refl

    start_engines-reporter_started :
        (schedule : List Bool) (r : RouterConfig L) (cfg : ServiceConfig) (agents : List AsyncAgent)
        → count is_reporter_started (start_engines L c schedule r cfg agents) ≡ 0
    unfolding start_engines gin_task
    start_engines-reporter_started schedule r cfg [] = refl
    start_engines-reporter_started schedule r cfg (_ ∷ _) =
        count-run_group_of_none L c schedule r is_reporter_started cfg waited-reporter_started refl
          ended-reporter_started

    closers-reporter_started : count is_reporter_started (closers L c) ≡ 0
    unfolding closers
    closers-reporter_started = ground arith

    prepare-reporter_started :
        (cfg : ServiceConfig)
        → count is_reporter_started (trace (prepare L c cfg))
          ≡ (if validates L c cfg && reports (final_config L c cfg) then 1 else 0)
    unfolding prepare
    prepare-reporter_started cfg = ground arith

-- Under every schedule the goroutine of the usage report is started once if the logger opens, both
-- validations succeed, the report is not switched off and the configuration can be hashed, and never
-- otherwise.
pub execute-reporter_started :
    (L : Libraries) (defaults : Collaborators L) (e : ExecutorBuilder L) (schedule : List Bool)
    (cfg : ServiceConfig)
    → let c = team L defaults e schedule cfg in
      count is_reporter_started (execute L defaults e schedule cfg)
      ≡ (if validates L c cfg && reports L (final_config L c cfg) then 1 else 0)
unfolding execute
execute-reporter_started L defaults e schedule cfg =
    let c = team L defaults e schedule cfg in
    ground (
      arith,
      count-run L c schedule cfg is_reporter_started 0 (reporter_started-IsQuiet L) (λ r.
          start_engines-reporter_started L c schedule r (final_config L c cfg)
            (final_config L c cfg).async_agents),
      prepare-reporter_started L c cfg,
      closers-reporter_started L c,
    )
