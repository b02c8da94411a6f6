-- ===== src/Executor/Schedule.antt =====
-- The error group of the agents and the router, under every schedule of its two goroutines.
use pucora_ce.Base.{String, Bool, true, false, List, [], ◌∷◌, ◌++◌, ◌≡◌, refl, ◌∙◌, ap}
use pucora_ce.Base.{Option, none, some, arith}
use pucora_ce.Executor.Config.{ServiceConfig}
use pucora_ce.Executor.Collaborators.{Libraries, RouterConfig, Collaborators}
use pucora_ce.Executor.Event.{
  Event, is_router_run, is_agents_started, agents_started, group_context, precedes,
}
use pucora_ce.Executor.Run.{
  launch, merge, agents_ended, gin_task, tasks, returned, returns, waited, run_group,
}
use pucora_ce.Executor.Group.{precedes-append, agents_result}

-- What `errgroup` documents of `Wait`: it returns the first error, if any.
abbrev pub first_error : List (Option String) → Option String
first_error [] = none
first_error (none ∷ rs) = first_error rs
first_error (some e ∷ rs) = some e

module _ (L : Libraries) (c : Collaborators L) where
  first_error-append :
      (es fs : List (Event L))
      → first_error (returns L c fs) ≡ none
      → first_error (returns L c (es ++ fs)) ≡ first_error (returns L c es)
  unfolding returns
  first_error-append [] fs h = h
  first_error-append (e ∷ es) fs h = ground (arith, first_error-append es fs h)

  -- Where one goroutine returns no error, the group has the error of the other.
  first_error-merge :
      (s : List Bool) (xs ys : List (Event L))
      → first_error (returns L c ys) ≡ none
      → first_error (returns L c (merge s xs ys)) ≡ first_error (returns L c xs)
  unfolding returns merge
  first_error-merge [] xs ys h = first_error-append xs ys h
  first_error-merge (_ ∷ s) [] ys h = h
  first_error-merge (true ∷ s) (x ∷ xs) ys h = ground (arith, first_error-merge s xs ys h)
  first_error-merge (false ∷ s) (x ∷ xs) [] h = refl
  first_error-merge (false ∷ s) (x ∷ xs) (y ∷ ys) h =
      ground (arith, first_error-merge s (x ∷ xs) ys)

  first_error-launch :
      (b : Bool) (s : List Bool) (e : Event L) (xs ys : List (Event L))
      → returned L c e ≡ none
      → first_error (returns L c ys) ≡ none
      → first_error (returns L c (launch b s e xs ys)) ≡ first_error (returns L c xs)
  unfolding returns launch
  first_error-launch true s e xs ys h k = ground (arith, first_error-merge s xs ys k)
  first_error-launch false s e xs ys h k = first_error-merge s (e ∷ xs) ys k ∙ ground arith

precedes-launch_sequential :
    {E : Type 0} (p q : E → Bool) (b : Bool) (s : List Bool) (e : E) (xs ys : List E)
    → b ≡ true
    → p e ≡ true
    → precedes p q (launch b s e xs ys) ≡ true
unfolding launch
precedes-launch_sequential p q true s e xs ys h k = rw k
precedes-launch_sequential p q false s e xs ys h k = cc

module _ (L : Libraries) (c : Collaborators L) (schedule : List Bool) (r : RouterConfig L)
    (cfg : ServiceConfig) where
  first_error-ended : (o : Option String) → first_error (returns L c (agents_ended L c o)) ≡ o
  unfolding agents_ended returns returned
  first_error-ended none = refl
  first_error-ended (some e) = refl

  first_error-tasks :
      first_error (returns L c (tasks L c schedule r cfg)) ≡ agents_result L c schedule r cfg
  unfolding tasks agents_result returns returned
  first_error-tasks =
      first_error-launch L c cfg.sequential_start schedule
        (agents_started group_context cfg.async_agents)
        (agents_ended L c (agents_result L c schedule r cfg)) (gin_task L c r cfg) refl refl
      ∙ first_error-ended (agents_result L c schedule r cfg)

  -- A group that waits as `errgroup` documents ends with the error of the agents, whatever the
  -- schedule: it is logged after both goroutines have returned, and nothing is if there is none.
  pub run_group_error :
      ((rs : List (Option String)) → L.group_wait rs ≡ first_error rs)
      → run_group L c schedule r cfg
        ≡ tasks L c schedule r cfg
          ++ waited L c (c.agent_starter_factory cfg.async_agents r.proxy_factory)
  unfolding run_group agents_result
  run_group_error documented =
      ap (λ o. tasks L c schedule r cfg ++ waited L c o) (documented _ ∙ first_error-tasks)

  -- With `sequential_start` the agents have been started when the router runs.
  run_group_sequential :
      cfg.sequential_start ≡ true
      → precedes is_agents_started is_router_run (run_group L c schedule r cfg) ≡ true
  unfolding run_group tasks
  run_group_sequential h =
      precedes-append is_agents_started is_router_run (tasks L c schedule r cfg) _ (
        precedes-launch_sequential is_agents_started is_router_run cfg.sequential_start schedule
          (agents_started group_context cfg.async_agents) _ (gin_task L c r cfg) h refl)
