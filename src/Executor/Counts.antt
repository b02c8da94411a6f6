-- ===== src/Executor/Counts.antt =====
-- How often a call occurs in a run of the executor: before the registration of the metrics, and after
-- it under the conditions of the early returns.
use pucora_ce.Base.{ℕ, ◌+◌, Bool, true, false, List, ◌∷◌, ◌++◌, ◌≡◌, refl, ◌∙◌, ap}
use pucora_ce.Base.{arith, if◌then◌else◌}
use pucora_ce.Executor.Config.{ServiceConfig}
use pucora_ce.Executor.Collaborators.{Libraries, RouterConfig, Collaborators}
use pucora_ce.Executor.Event.{
  Event, count, count-append, is_router_run, is_metrics_registered, is_metrics_closed,
  is_plugins_loaded, metrics_registered,
}
use pucora_ce.Executor.Flow.{trace}
use pucora_ce.Executor.Run.{prepare, closers, run, start_engines}
use pucora_ce.Executor.Gates.{
  IsQuiet, validates, boots, final_config, metrics_of, served, run_valid, run_invalid, count-serve,
}

module _ (L : Libraries) (c : Collaborators L) (schedule : List Bool) (cfg : ServiceConfig) where
  pub count-run :
      (p : Event L → Bool) (n : ℕ)
      → IsQuiet p
      → ((r : RouterConfig L)
          → count p (
              start_engines L c schedule r
                (final_config L c cfg)
                (final_config L c cfg).async_agents)
            ≡ n)
      → count p (trace (run L c schedule cfg))
        ≡ count p (trace (prepare L c cfg))
          + (if validates L c cfg
              then count p (metrics_registered (metrics_of L c cfg) ∷ closers L c)
                + (if boots L c cfg then n else 0)
              else 0)
  count-run p n quiet engines = go (validates L c cfg) refl
    where
      go :
          (b : Bool)
          → validates L c cfg ≡ b
          → count p (trace (run L c schedule cfg))
            ≡ count p (trace (prepare L c cfg))
              + (if b
                  then count p (metrics_registered (metrics_of L c cfg) ∷ closers L c)
                    + (if boots L c cfg then n else 0)
                  else 0)
      go true valid =
          ap (count p) (run_valid L c schedule cfg valid)
          ∙ omega (
            arith,
            count-append p (trace (prepare L c cfg)) (
                metrics_registered (metrics_of L c cfg) ∷ (served L c schedule cfg ++ closers L c)),
            count-append p (served L c schedule cfg) (closers L c),
            count-serve p quiet c schedule _ (final_config L c cfg) (metrics_of L c cfg) n engines,
          )
      go false invalid = ap (count p) (run_invalid L c schedule cfg invalid) ∙ omega arith

pub router_run-IsQuiet : (L : Libraries) → IsQuiet {L = L} is_router_run
router_run-IsQuiet L = record {
  log_line = λ l m. refl;
  cacher = refl;
  subscribers = λ s. refl;
  rejecter = λ r. refl;
}

pub plugins_loaded-IsQuiet : (L : Libraries) → IsQuiet {L = L} is_plugins_loaded
plugins_loaded-IsQuiet L = record {
  log_line = λ l m. refl;
  cacher = refl;
  subscribers = λ s. refl;
  rejecter = λ r. refl;
}

pub metrics_closed-IsQuiet : (L : Libraries) → IsQuiet {L = L} is_metrics_closed
metrics_closed-IsQuiet L = record {
  log_line = λ l m. refl;
  cacher = refl;
  subscribers = λ s. refl;
  rejecter = λ r. refl;
}

module _ (L : Libraries) (c : Collaborators L) where
  pub closers-router_run : count is_router_run (closers L c) ≡ 0
  unfolding closers
  closers-router_run = ground arith

  pub closers-plugins_loaded : count is_plugins_loaded (closers L c) ≡ 0
  unfolding closers
  closers-plugins_loaded = ground arith

  pub closers-metrics_closed :
      count is_metrics_closed (closers L c)
      ≡ (if c.metrics_and_traces_register.is_closer then 1 else 0)
  unfolding closers
  closers-metrics_closed = ground arith

pub metrics_registered-IsQuiet : (L : Libraries) → IsQuiet {L = L} is_metrics_registered
metrics_registered-IsQuiet L = record {
  log_line = λ l m. refl;
  cacher = refl;
  subscribers = λ s. refl;
  rejecter = λ r. refl;
}
