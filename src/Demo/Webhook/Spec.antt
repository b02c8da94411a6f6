-- ===== src/Demo/Webhook/Spec.antt =====
-- The webhook as one register: messages are stored and asked for one at a time.
use pucora_ce.Base.{List, [], ◌∷◌, ◌≡◌, Option, none, some, ◌⊎◌}
use pucora_ce.Base.Json.{Fields}
use pucora_ce.Demo.Webhook.{Reply, not_found, encoded, Op, put, get}

-- What the register holds after the accesses, the latest first.
abbrev pub latest : List Op → Option Fields
latest [] = none
latest (put b ∷ h) = b
latest (get r ∷ h) = latest h

abbrev pub answer : Option Fields → Reply
answer none = not_found
answer (some b) = encoded (some b)

-- Each answer is the one that the register gives at its place in the history.
abbrev pub IsAtomic : List Op → Type 0
IsAtomic [] = Unit
IsAtomic (put b ∷ h) = IsAtomic h
IsAtomic (get r ∷ h) = (r ≡ answer (latest h)) × IsAtomic h

abbrev pub Occurs : Op → List Op → Type 0
Occurs op [] = ⊥
Occurs op (o ∷ h) = (o ≡ op) ⊎ Occurs op h
