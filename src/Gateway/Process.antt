-- ===== src/Gateway/Process.antt =====
-- cmd/pucora-ce/main.go and executor.go: the process of `pucora run`, which is the executor on the
-- context of `main`, beside the goroutine that waits for a signal.
pub mod Ends
use pucora_ce.Base.{ℕ, suc, ◌+◌, Bool, true, false, List, [], ◌∷◌, ◌++◌, ◌≡◌}
use pucora_ce.Base.{none, some}
use pucora_ce.Executor.Collaborators.{Libraries}
use pucora_ce.Executor.Event.{Event}
use pucora_ce.Gateway.Signal as Signal
use pucora_ce.Gateway.Signal.{Wait}

-- The context and the goroutine, the calls that the executor has made, and those that it is yet to
-- make.
pub record State (L : Libraries) : Type 0 where
  pub signal : Signal.State
  pub done : List (Event L)
  pub rest : List (Event L)

module _ {L : Libraries} where
  -- The signals that arrive.
  pub data Arrive (s : State L) : State L → Type 0 where
    deliver :
        (sig : Signal.Signal)
        → s.signal.sigs ≡ none
        → Arrive s (record s { signal = record s.signal { sigs = some sig; delivered = true } })
    drop : (sig old : Signal.Signal) → s.signal.sigs ≡ some old → Arrive s s

  abbrev pub starting : List (Event L) → State L
  starting events = record { signal = Signal.start; done = []; rest = events }

-- When a call of the executor comes to an end, by whether the context of `main` is cancelled and by
-- the calls that were made before. The router and the agents decide it, which are libraries.
abbrev pub Ending : Libraries → Type 1
Ending L = Bool → List (Event L) → Event L → Type 0

module _ {L : Libraries} (Returns : Ending L) where
  -- The moves of the process: of the goroutine, of the executor, and the return of `main`.
  pub data Move (s : State L) : State L → Type 0 where
    wait : {t : Signal.State} → Wait s.signal t → Move s (record s { signal = t })
    call :
        (e : Event L) (es : List (Event L))
        → s.rest ≡ e ∷ es
        → Returns s.signal.cancelled s.done e
        → Move s (record s { done = s.done ++ (e ∷ []); rest = es })
    finish :
        s.rest ≡ []
        → s.signal.returned ≡ false
        → Move s (record s { signal = record s.signal { returned = true; cancelled = true } })

  -- The states that are reached, with the number of moves of the process.
  pub data Reach (events : List (Event L)) : ℕ → State L → Type 0 where
    here : Reach events 0 (starting events)
    moved : {n : ℕ} {s t : State L} → Reach events n s → Move s t → Reach events (suc n) t
    arrived : {n : ℕ} {s t : State L} → Reach events n s → Arrive s t → Reach events n t
