-- ===== src/Harness/Runner.antt =====
-- tests/integration.go: `NewIntegration` and `Runner.Close`, on the two servers that they start and
-- stop: the gateway's process and the mocked backend.
use pucora_ce.Base.{String, Bool, true, false, List, [], ◌∷◌, ◌≡◌, Option, none, some}
use pucora_ce.Base.{◌⊎◌, arith, if◌then◌else◌}
use pucora_ce.Base.Result.{Result, ok, err}

-- Which of the two is running.
pub record World : Type 0 where
  pub process : Bool
  pub backend : Bool

pub data Server : Type 0 where
  gateway mocked_backend : Server

-- `closeFuncs`, and whether `once` has fired.
pub record Runner : Type 0 where
  pub close_funcs : List Server
  pub closed : Bool

-- `NewIntegration` returns an error with no runner, or a runner with the test cases.
pub data Integration (T : Type 0) : Type 0 where
  failed : String → Integration T
  started : Runner → List T → Integration T

stop : Server → World → World
stop gateway w = record w { process = false }
stop mocked_backend w = record w { backend = false }

close_all : List Server → World → World
close_all [] w = w
close_all (f ∷ fs) w = close_all fs (stop f w)

-- `Close`: the functions run the first time only.
unfoldable pub close : Runner → World → Runner × World
unfolding close_all stop
close r w = if r.closed then (r, w) else (record r { closed = true }, close_all r.close_funcs w)

module _ {T : Type 0} where
  -- After the backend was started: the wait for both servers.
  await : Option String → List T → World → Integration T × World
  await (some e) cases w = (failed e, w)
  await none cases w =
      (started (record { close_funcs = gateway ∷ mocked_backend ∷ []; closed = false }) cases, w)

  -- After the process was started: the specs, and the backend.
  prepare : Result (List T) → Option String → World → Integration T × World
  unfolding await stop
  prepare (err e) waited w = (failed e, stop gateway w)
  prepare (ok cases) waited w = await waited cases (record w { backend = true })

  -- `NewIntegration`, with what `cmd.Start`, `testCases` and `waitForStartup` return.
  unfoldable pub new_integration :
      Option String → Result (List T) → Option String → World → Integration T × World
  unfolding prepare
  new_integration (some e) cases waited w = (failed e, w)
  new_integration none cases waited w = prepare cases waited (record w { process = true })

abbrev pub idle : World
idle = record { process = false; backend = false }

-- A runner that is returned closes what was started: after `Close` nothing runs, and a second
-- `Close` changes neither the runner nor the servers, not even if they were started anew.
pub close-new_integration :
    {T : Type 0} (start : Option String) (cases : Result (List T)) (waited : Option String)
    (r : Runner) (tcs : List T) (w later : World)
    → new_integration start cases waited idle ≡ (started r tcs, w)
    → (w ≡ record { process = true; backend = true })
      × ((close r w).1 ≡ idle)
      × (close (close r w).0 later ≡ ((close r w).0, later))
unfolding new_integration close
close-new_integration start cases waited r tcs w later h = ground arith

-- Without a runner the servers are stopped, but for one case: when the wait for the start fails,
-- both are left running.
new_integration_failed :
    {T : Type 0} (start : Option String) (cases : Result (List T)) (waited : Option String)
    (e : String) (w : World)
    → new_integration start cases waited idle ≡ (failed e, w)
    → (w ≡ idle)
      ⊎ ((w ≡ record { process = true; backend = true }) × (start ≡ none) × (waited ≡ some e))
unfolding new_integration
new_integration_failed start cases waited e w h = ground arith
