-- ===== src/Executor/Group.antt =====
-- executor.go: the error group of the agents and the router, under every schedule.
use pucora_ce.Base.{◌+◌, String, Bool, true, false, List, [], ◌∷◌, ◌++◌, ◌≡◌, refl}
use pucora_ce.Base.{Option, none, some, arith}
use pucora_ce.Executor.Config.{ServiceConfig, AsyncAgent}
use pucora_ce.Executor.Collaborators.{Libraries, RouterConfig, Collaborators}
use pucora_ce.Executor.Event.{
  Event, count, count-append, is_router_run, is_metrics_registered, is_metrics_closed,
  is_plugins_loaded, agents_started, group_context, precedes,
}
use pucora_ce.Executor.Run.{
  launch, merge, agents_ended, gin_task, tasks, returns, waited, run_group, start_engines,
}

-- A schedule neither loses a call nor makes one twice.
pub count-merge :
    {E : Type 0} (p : E → Bool) (s : List Bool) (xs ys : List E)
    → count p (merge s xs ys) ≡ count p xs + count p ys
unfolding merge
count-merge p [] xs ys = count-append p xs ys
count-merge p (_ ∷ s) [] ys = omega arith
count-merge p (true ∷ s) (x ∷ xs) ys = omega (arith, count-merge p s xs ys)
count-merge p (false ∷ s) (x ∷ xs) [] = omega arith
count-merge p (false ∷ s) (x ∷ xs) (y ∷ ys) = omega (arith, count-merge p s (x ∷ xs) ys)

precedes_of_none :
    {E : Type 0} (p q : E → Bool) (es : List E) → count p es ≡ 0 → precedes p q es ≡ false
precedes_of_none p q [] h = refl
precedes_of_none p q (e ∷ es) h = ground (arith, precedes_of_none p q es)

pub precedes-append :
    {E : Type 0} (p q : E → Bool) (es fs : List E)
    → precedes p q es ≡ true
    → precedes p q (es ++ fs) ≡ true
precedes-append p q [] fs h = cc
precedes-append p q (e ∷ es) fs h = ground (arith, precedes-append p q es fs)

-- Calls of one goroutine keep their order, if the other makes neither of them.
pub precedes-merge :
    {E : Type 0} (p q : E → Bool) (s : List Bool) (xs ys : List E)
    → count p xs ≡ 0
    → count q xs ≡ 0
    → precedes p q (merge s xs ys) ≡ precedes p q ys
unfolding merge
precedes-merge p q [] [] ys h k = refl
precedes-merge p q [] (x ∷ xs) ys h k = ground (arith, precedes-merge p q [] xs ys)
precedes-merge p q (_ ∷ s) [] ys h k = refl
precedes-merge p q (true ∷ s) (x ∷ xs) ys h k = ground (arith, precedes-merge p q s xs ys)
precedes-merge p q (false ∷ s) (x ∷ xs) [] h k = precedes_of_none p q (x ∷ xs) h
precedes-merge p q (false ∷ s) (x ∷ xs) (y ∷ ys) h k =
    ground (arith, precedes-merge p q s (x ∷ xs) ys)

count-launch :
    {E : Type 0} (p : E → Bool) (b : Bool) (s : List Bool) (e : E) (xs ys : List E)
    → count p (launch b s e xs ys) ≡ count p (e ∷ xs) + count p ys
unfolding launch
count-launch p true s e xs ys = omega (arith, count-merge p s xs ys)
count-launch p false s e xs ys = count-merge p s (e ∷ xs) ys

pub precedes-launch :
    {E : Type 0} (p q : E → Bool) (b : Bool) (s : List Bool) (e : E) (xs ys : List E)
    → count p (e ∷ xs) ≡ 0
    → count q (e ∷ xs) ≡ 0
    → precedes p q (launch b s e xs ys) ≡ precedes p q ys
unfolding launch
precedes-launch p q true s e xs ys h k = ground (arith, precedes-merge p q s xs ys)
precedes-launch p q false s e xs ys h k = precedes-merge p q s (e ∷ xs) ys h k

module _ (L : Libraries) (c : Collaborators L) (schedule : List Bool) (r : RouterConfig L) where
  unfoldable pub agents_result : ServiceConfig → Option String
  agents_result cfg = c.agent_starter_factory cfg.async_agents r.proxy_factory

  count-tasks :
      (p : Event L → Bool) (cfg : ServiceConfig)
      → count p (tasks L c schedule r cfg)
        ≡ count p
            (agents_started group_context cfg.async_agents ∷ agents_ended L c (agents_result cfg))
          + count p (gin_task L c r cfg)
  unfolding tasks agents_result
  count-tasks p cfg = count-launch p cfg.sequential_start schedule _ _ _

  waited-quiet :
      (e : Option String)
      → (count is_router_run (waited L c e) ≡ 0)
        × (count is_metrics_registered (waited L c e) ≡ 0)
        × (count is_metrics_closed (waited L c e) ≡ 0)
        × (count is_plugins_loaded (waited L c e) ≡ 0)
  unfolding waited
  waited-quiet none = (refl, refl, refl, refl)
  waited-quiet (some e) = (refl, refl, refl, refl)

  pub count-run_group :
      (p : Event L → Bool) (cfg : ServiceConfig)
      → ((e : Option String) → count p (waited L c e) ≡ 0)
      → count p (run_group L c schedule r cfg)
        ≡ count p
            (agents_started group_context cfg.async_agents ∷ agents_ended L c (agents_result cfg))
          + count p (gin_task L c r cfg)
  unfolding run_group
  count-run_group p cfg quiet =
      rw (count-append, count-tasks)
        (omega (arith, quiet (L.group_wait (returns L c (tasks L c schedule r cfg)))))

  -- Of a kind of call that the agents do not make.
  pub count-run_group_of_none :
      (p : Event L → Bool) (cfg : ServiceConfig)
      → ((e : Option String) → count p (waited L c e) ≡ 0)
      → p (agents_started group_context cfg.async_agents) ≡ false
      → ((e : Option String) → count p (agents_ended L c e) ≡ 0)
      → count p (run_group L c schedule r cfg) ≡ count p (gin_task L c r cfg)
  count-run_group_of_none p cfg quiet other idle =
      ground (arith, other, count-run_group p cfg quiet, idle (agents_result cfg))

  ended-quiet :
      (e : Option String)
      → (count is_router_run (agents_ended L c e) ≡ 0)
        × (count is_metrics_registered (agents_ended L c e) ≡ 0)
        × (count is_metrics_closed (agents_ended L c e) ≡ 0)
        × (count is_plugins_loaded (agents_ended L c e) ≡ 0)
  unfolding agents_ended
  ended-quiet none = (refl, refl, refl, refl)
  ended-quiet (some e) = (refl, refl, refl, refl)

  -- The engines run the router once, and neither load plugins nor touch the metrics.
  pub start_engines-router_run :
      (cfg : ServiceConfig) (agents : List AsyncAgent)
      → count is_router_run (start_engines L c schedule r cfg agents) ≡ 1
  unfolding start_engines gin_task
  start_engines-router_run cfg [] = refl
  start_engines-router_run cfg (_ ∷ _) =
      count-run_group_of_none is_router_run cfg (λ e. (waited-quiet e).0) refl
        (λ e. (ended-quiet e).0)

  pub start_engines-metrics_registered :
      (cfg : ServiceConfig) (agents : List AsyncAgent)
      → count is_metrics_registered (start_engines L c schedule r cfg agents) ≡ 0
  unfolding start_engines gin_task
  start_engines-metrics_registered cfg [] = refl
  start_engines-metrics_registered cfg (_ ∷ _) =
      count-run_group_of_none is_metrics_registered cfg (λ e. (waited-quiet e).1) refl
        (λ e. (ended-quiet e).1)

  pub start_engines-metrics_closed :
      (cfg : ServiceConfig) (agents : List AsyncAgent)
      → count is_metrics_closed (start_engines L c schedule r cfg agents) ≡ 0
  unfolding start_engines gin_task
  start_engines-metrics_closed cfg [] = refl
  start_engines-metrics_closed cfg (_ ∷ _) =
      count-run_group_of_none is_metrics_closed cfg (λ e. (waited-quiet e).2) refl
        (λ e. (ended-quiet e).2)

  pub start_engines-plugins_loaded :
      (cfg : ServiceConfig) (agents : List AsyncAgent)
      → count is_plugins_loaded (start_engines L c schedule r cfg agents) ≡ 0
  unfolding start_engines gin_task
  start_engines-plugins_loaded cfg [] = refl
  start_engines-plugins_loaded cfg (_ ∷ _) =
      count-run_group_of_none is_plugins_loaded cfg (λ e. (waited-quiet e).3) refl
        (λ e. (ended-quiet e).3)
