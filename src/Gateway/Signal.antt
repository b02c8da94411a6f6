-- ===== src/Gateway/Signal.antt =====
-- cmd/pucora-ce/main.go: the goroutine of `main` that waits for a signal, beside the command itself,
-- which runs until the command line library returns.
use pucora_ce.Base.{Bool, true, false, ◌≡◌, refl, ◌⊎◌, inl, inr, Option, none, some, is_some, arith}
use pucora_ce.Base.{Bool-cases, Option-cases}

pub data Signal : Type 0 where
  sigint sigterm : Signal

-- Where the goroutine stands: in the `select`, before the log line, before `cancel()`, at its end.
pub data Waiter : Type 0 where
  selecting : Waiter
  logging : Signal → Waiter
  cancelling ended : Waiter

-- The buffer of `sigs`, which holds one signal; whether the context is cancelled; the goroutine;
-- whether `main` has returned, and whether a signal has been delivered.
pub record State : Type 0 where
  pub sigs : Option Signal
  pub cancelled : Bool
  pub waiter : Waiter
  pub returned : Bool
  pub delivered : Bool

abbrev pub start : State
start = record {
  sigs = none;
  cancelled = false;
  waiter = selecting;
  returned = false;
  delivered = false;
}

-- The steps of the goroutine. Where both cases of the `select` are ready, either may be taken.
pub data Wait (s : State) : State → Type 0 where
  receive :
      (sig : Signal)
      → s.waiter ≡ selecting
      → s.sigs ≡ some sig
      → Wait s (record s { sigs = none; waiter = logging sig })
  see_done : s.waiter ≡ selecting → s.cancelled ≡ true → Wait s (record s { waiter = ended })
  log : (sig : Signal) → s.waiter ≡ logging sig → Wait s (record s { waiter = cancelling })
  cancel : s.waiter ≡ cancelling → Wait s (record s { waiter = ended; cancelled = true })

-- `signal.Notify` does not block: a signal for which there is no room is dropped. When the command
-- has been executed, the deferred `cancel()` is called.
pub data Step (s : State) : State → Type 0 where
  deliver : (sig : Signal) → s.sigs ≡ none → Step s (record s { sigs = some sig; delivered = true })
  drop : (sig old : Signal) → s.sigs ≡ some old → Step s s
  wait : {t : State} → Wait s t → Step s t
  return : s.returned ≡ false → Step s (record s { returned = true; cancelled = true })

pub data Reach : State → Type 0 where
  here : Reach start
  next : {s t : State} → Reach s → Step s t → Reach t

-- Steps of the goroutine alone, up to `u`.
pub data Waits (u : State) : State → Type 0 where
  now : Waits u u
  after : {s t : State} → Wait s t → Waits u t → Waits u s

abbrev pub has_signal : Waiter → Bool
has_signal (logging sig) = true
has_signal cancelling = true
has_signal _ = false

abbrev pub is_ended : Waiter → Bool
is_ended ended = true
is_ended _ = false

-- The context is cancelled for a reason, and a signal is not lost: until the context is cancelled it
-- is in the buffer or with the goroutine, which ends only then.
pub record Inv (s : State) : Type 0 where
  pub reason : s.cancelled ≡ true → (s.delivered ≡ true) ⊎ (s.returned ≡ true)
  pub carried : has_signal s.waiter ≡ true → s.delivered ≡ true
  pub buffered : is_some s.sigs ≡ true → s.delivered ≡ true
  pub pending :
      s.delivered ≡ true
      → (s.cancelled ≡ true) ⊎ ((is_some s.sigs ≡ true) ⊎ (has_signal s.waiter ≡ true))
  pub closed : is_ended s.waiter ≡ true → s.cancelled ≡ true

Wait-Inv : {s t : State} → Wait s t → Inv s → Inv t
Wait-Inv (receive sig a b) inv = ground (arith, a, b, inv)
Wait-Inv (see_done a b) inv = ground (arith, a, b, inv)
Wait-Inv (log sig a) inv = ground (arith, a, inv)
Wait-Inv (cancel a) inv = ground (arith, a, inv)

pub Step-Inv : {s t : State} → Step s t → Inv s → Inv t
Step-Inv (deliver sig a) inv = ground (arith, a, inv)
Step-Inv (drop sig old a) inv = inv
Step-Inv (wait w) inv = Wait-Inv w inv
Step-Inv (return a) inv = ground (arith, inv)

Reach-Inv : {s : State} → Reach s → Inv s
Reach-Inv here = ground arith
Reach-Inv (next r st) = Step-Inv st (Reach-Inv r)

-- The context is cancelled only after a signal was delivered or when the command has returned.
Reach-reason :
    {s : State} → Reach s → s.cancelled ≡ true → (s.delivered ≡ true) ⊎ (s.returned ≡ true)
Reach-reason reach c = (Reach-Inv reach).reason c

-- The goroutine alone gets the context cancelled.
abbrev CancelsAlone : State → Type 0
CancelsAlone s = (t : State) × Waits t s × (t.cancelled ≡ true)

from_cancelling : (s : State) → s.waiter ≡ cancelling → CancelsAlone s
from_cancelling s e = (_, after (cancel e) now, refl)

from_logging : (s : State) (sig : Signal) → s.waiter ≡ logging sig → CancelsAlone s
from_logging s sig e =
    let (t, steps, c) = from_cancelling (record s { waiter = cancelling }) refl in
    (t, after (log sig e) steps, c)

from_selecting :
    (s : State) (sig : Signal) → s.waiter ≡ selecting → s.sigs ≡ some sig → CancelsAlone s
from_selecting s sig e f =
    let (t, steps, c) = from_logging (record s { sigs = none; waiter = logging sig }) sig refl in
    (t, after (receive sig e f) steps, c)

pub Waiter-cases :
    (w : Waiter)
    → (w ≡ selecting) ⊎ (((sig : Signal) × (w ≡ logging sig)) ⊎ ((w ≡ cancelling) ⊎ (w ≡ ended)))
Waiter-cases selecting = inl refl
Waiter-cases (logging sig) = inr (inl (sig, refl))
Waiter-cases cancelling = inr (inr (inl refl))
Waiter-cases ended = inr (inr (inr refl))

-- A signal that was delivered is not lost: whatever has happened, the goroutine can get the context
-- cancelled by its own steps, if it is not cancelled already.
Reach-CancelsAlone : {s : State} → Reach s → s.delivered ≡ true → CancelsAlone s
Reach-CancelsAlone {s} reach d = elim (Bool-cases s.cancelled) [
  | inl c ↦ (s, now, c)
  | inr c ↦ elim (Waiter-cases s.waiter) [
    | inl e ↦ elim (Option-cases s.sigs) [
      | inl f ↦ absurd (ground (arith, Reach-Inv reach, c, d, e, f))
      | inr (sig, f) ↦ from_selecting s sig e f
    ]
    | inr (inl (sig, e)) ↦ from_logging s sig e
    | inr (inr (inl e)) ↦ from_cancelling s e
    | inr (inr (inr e)) ↦ absurd (ground (arith, Reach-Inv reach, c, e))
  ]
]
