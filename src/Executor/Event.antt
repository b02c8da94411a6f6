-- ===== src/Executor/Event.antt =====
-- The calls that make up the trace of the executor, and tests on traces.
use pucora_ce.Base.{ℕ, ◌+◌, String, Bool, true, false, List, [], ◌∷◌, ◌++◌, Option, ◌≡◌}
use pucora_ce.Base.{arith, if◌then◌else◌}
use pucora_ce.Executor.Config.{ServiceConfig, AsyncAgent}
use pucora_ce.Executor.Collaborators.{Libraries, RouterConfig}

pub data Level : Type 0 where
  debug info warning error : Level

-- The context that a call gets: the one of the executor, or the one of its error group.
pub data Context : Type 0 where
  service_context group_context : Context

pub data Event (L : Libraries) : Type 0 where
  logged : Level → List String → Event L
  reporter_started : String → Event L
  ttl_set : ℕ → Event L
  plugins_loaded : L.PluginLoaderWithContext → String → String → Event L
  metrics_registered : L.Metrics → Event L
  metrics_closed : Event L
  cacher_set : Event L
  subscribers_registered : L.Subscribe → Event L
  rejecter_made : L.RejecterFactory → Event L
  agents_started : Context → List AsyncAgent → Event L
  agents_returned : Option String → Event L
  router_run : Context → RouterConfig L → ServiceConfig → Event L
  router_returned : Event L
  -- `errgroup` cancels the context of the group at the error of one of its functions.
  group_cancelled : Event L
  -- The call of `closeGroupCtx`.
  group_closed : Event L

module _ {L : Libraries} where
  abbrev pub is_router_run : Event L → Bool
  is_router_run (router_run _ _ _) = true
  is_router_run _ = false

  abbrev pub is_metrics_registered : Event L → Bool
  is_metrics_registered (metrics_registered _) = true
  is_metrics_registered _ = false

  abbrev pub is_metrics_closed : Event L → Bool
  is_metrics_closed metrics_closed = true
  is_metrics_closed _ = false

  abbrev pub is_plugins_loaded : Event L → Bool
  is_plugins_loaded (plugins_loaded _ _ _) = true
  is_plugins_loaded _ = false

  abbrev pub is_reporter_started : Event L → Bool
  is_reporter_started (reporter_started _) = true
  is_reporter_started _ = false

  abbrev pub is_agents_started : Event L → Bool
  is_agents_started (agents_started _ _) = true
  is_agents_started _ = false

  abbrev pub is_router_returned : Event L → Bool
  is_router_returned router_returned = true
  is_router_returned _ = false

  abbrev pub is_group_cancelled : Event L → Bool
  is_group_cancelled group_cancelled = true
  is_group_cancelled _ = false

  abbrev pub is_group_closed : Event L → Bool
  is_group_closed group_closed = true
  is_group_closed _ = false

  abbrev pub is_agents_returned : Event L → Bool
  is_agents_returned (agents_returned _) = true
  is_agents_returned _ = false

-- How often a kind of call was made.
module _ {E : Type 0} (p : E → Bool) where
  abbrev pub count : List E → ℕ
  count [] = 0
  count (e ∷ es) = (if p e then 1 else 0) + count es

  pub count-append : (es fs : List E) → count (es ++ fs) ≡ count es + count fs
  count-append [] fs = omega arith
  count-append (e ∷ es) fs = ground (arith, count-append es fs)

-- A call of the first kind is made, and none of the second kind before it.
abbrev pub precedes : {E : Type 0} → (E → Bool) → (E → Bool) → List E → Bool
precedes p q [] = false
precedes p q (e ∷ es) = if p e then true else if q e then false else precedes p q es
