-- ===== src/Demo/Webhook/Refines.antt =====
-- The handlers of the webhook behave as one register.
use pucora_ce.Base.{ℕ, ◌≡◌, List, some}
use pucora_ce.Demo.Webhook.{Request, Reply, Op, get, System, Reach}
use pucora_ce.Demo.Webhook.Spec.{latest, IsAtomic, Occurs}
use pucora_ce.Demo.Webhook.Invariant.{reply_of, Reach-Inv}

-- However the handlers are interleaved, the accesses that they make have an order in which each
-- answer to `/last` is the one of a register that holds one message: the message stored last, or
-- that there is none. The variable holds what the register holds, and each answer that a handler is
-- about to give or has given is one of the history.
pub Reach-IsAtomic :
    {n : ℕ} {requests : ℕ → Request} {h : List Op} {s : System}
    → Reach n requests h s
    → (i : ℕ) (r : Reply) → reply_of (s.pc i) ≡ some r
    → IsAtomic h × (latest h ≡ s.mem.last_msg) × Occurs (get r) h
Reach-IsAtomic reach i r e = let inv = Reach-Inv reach in (inv.atomic, inv.same, inv.recorded i r e)
