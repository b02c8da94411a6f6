-- ===== src/Gateway/Tests.antt =====
-- A gateway that gets a signal while it runs.
use pucora_ce.Base.{◌+◌, ◌≤◌, true, List, some, ◌≡◌, ◌⊎◌, refl, length}
use pucora_ce.Executor.Event.{Event, is_router_returned}
use pucora_ce.Executor.Run.{execute}
use pucora_ce.Executor.Samples.{libraries, defaults, no_builder, config, schedule}
use pucora_ce.Gateway.Signal.{sigterm}
use pucora_ce.Gateway.Process.{Ending, State, Move, deliver, here, arrived, starting}
use pucora_ce.Gateway.Process.Ends.{IsOver, Reach-IsOver}

-- The router returns when its context is cancelled; the other calls do not wait.
abbrev Returns : Ending libraries
Returns cancelled done e = is_router_returned e ≡ true → cancelled ≡ true

abbrev events : List (Event libraries)
events = execute libraries defaults no_builder schedule config

abbrev signalled : State libraries
signalled =
    let s = starting events in
    record s { signal = record s.signal { sigs = some sigterm; delivered = true } }

Reach-IsOver_example :
    (0 ≤ length events + 4)
    × (IsOver events signalled ⊎ ((t : State libraries) × Move Returns signalled t))
Reach-IsOver_example =
    Reach-IsOver Returns (λ done e h. refl) events 0 signalled (arrived here (deliver sigterm refl))
      refl
