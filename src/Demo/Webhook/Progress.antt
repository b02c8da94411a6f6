-- ===== src/Demo/Webhook/Progress.antt =====
-- No deadlock of the webhook's handlers: each gives its answer in the end.
use native.Mathlib.Decide.{dec_lt}
use pucora_ce.Base.{
  ℕ, zero, suc, ◌+◌, ◌*◌, ◌⊎◌, ◌≤◌, ◌<◌, ◌≡◌, refl, Bool, true, false, List, Option,
}
use pucora_ce.Base.{arith, Bool-cases, Option-cases, inl, inr}
use pucora_ce.Base.Result.{ok, err}
use pucora_ce.Demo.Webhook.{
  Store, Reply, Request, health, last, ingest, Pc, called, storing, writing, written, loading,
  testing, encoding, answered, returned, Op, Move, healthy, undecoded, decoded, lock_store, store,
  unlock_store, asked, lock_load, absent, present, encode, unlock_load, System, assign, pick, Step,
  start, here, Reach, next, Until, now, after,
}
use pucora_ce.Demo.Webhook.Mutex.{holds}
use pucora_ce.Demo.Webhook.Invariant.{Reach-Inv}

-- How many moves a handler has left at most.
abbrev pub weight : Pc → ℕ
weight (called q) = 5
weight (storing b) = 4
weight (writing b) = 3
weight written = 2
weight loading = 4
weight testing = 3
weight encoding = 2
weight (answered r) = 1
weight (returned r) = 0

pub total : ℕ → (ℕ → Pc) → ℕ
total zero pc = 0
total (suc n) pc = total n pc + weight (pc n)

weight_le : (p : Pc) → weight p ≤ 5
weight_le p = ground arith

total_le : (n : ℕ) (pc : ℕ → Pc) → total n pc ≤ 5 * n
unfolding total
total_le zero pc = omega arith
total_le (suc n) pc = omega (arith, total_le n pc, weight_le (pc n))

total-assign_of_le :
    (n : ℕ) (pc : ℕ → Pc) (i : ℕ) (p : Pc) → n ≤ i → total n (assign pc i p) ≡ total n pc
unfolding total assign
total-assign_of_le zero pc i p le = refl
total-assign_of_le (suc n) pc i p le = ground (arith, total-assign_of_le n pc i p)

total-assign :
    (n : ℕ) (pc : ℕ → Pc) (i : ℕ) (p : Pc)
    → i < n
    → weight p < weight (pc i)
    → total n (assign pc i p) < total n pc
unfolding total assign
total-assign zero pc i p lt less = absurd (omega (arith, lt))
total-assign (suc n) pc i p lt less =
    ground (arith, total-assign n pc i p, total-assign_of_le n pc i p)

Move-weight : {m m' : Store} {p p' : Pc} {l : Option Op} → Move m p l m' p' → weight p' < weight p
Move-weight healthy = omega arith
Move-weight (undecoded e) = omega arith
Move-weight (decoded b) = omega arith
Move-weight (lock_store b free) = omega arith
Move-weight (store b) = omega arith
Move-weight unlock_store = omega arith
Move-weight asked = omega arith
Move-weight (lock_load free) = omega arith
Move-weight (absent a) = omega arith
Move-weight (present b a) = omega arith
Move-weight (encode o a) = omega arith
Move-weight (unlock_load r) = omega arith

abbrev pub waits : Pc → Bool
waits (storing b) = true
waits loading = true
waits _ = false

-- A move that is open to a handler.
abbrev pub CanMove : Store → Pc → Type 0
CanMove m p = (l : Option Op) × (m' : Store) × (p' : Pc) × Move m p l m' p'

can_test : (m : Store) → CanMove m testing
can_test m = elim (Option-cases m.last_msg) [
  | inl gone ↦ (_, _, _, absent gone)
  | inr (b, there) ↦ (_, _, _, present b there)
]

can_move : (m : Store) (p : Pc) → 0 < weight p → (waits p ≡ true → m.locked ≡ false) → CanMove m p
can_move m (called health) lt free = (_, _, _, healthy)
can_move m (called last) lt free = (_, _, _, asked)
can_move m (called (ingest (ok b))) lt free = (_, _, _, decoded b)
can_move m (called (ingest (err e))) lt free = (_, _, _, undecoded e)
can_move m (storing b) lt free = (_, _, _, lock_store b (free refl))
can_move m (writing b) lt free = (_, _, _, store b)
can_move m written lt free = (_, _, _, unlock_store)
can_move m loading lt free = (_, _, _, lock_load (free refl))
can_move m testing lt free = can_test m
can_move m encoding lt free = (_, _, _, encode m.last_msg refl)
can_move m (answered r) lt free = (_, _, _, unlock_load r)
can_move m (returned r) lt free = absurd (omega (arith, lt))

left_over : (n : ℕ) (pc : ℕ → Pc) → 0 < total n pc → (i : ℕ) × (i < n) × (0 < weight (pc i))
unfolding total
left_over zero pc left = absurd (omega (arith, left))
left_over (suc n) pc left = elim (dec_lt 0 (weight (pc n))) [
  | yes lt ↦ (n, omega arith, lt)
  | no ge ↦
      let (i, below, lt) = left_over n pc (omega (arith, left, ge)) in (i, omega (arith, below), lt)
]

holds-busy : (p : Pc) → holds p ≡ true → (0 < weight p) × (waits p ≡ false)
holds-busy p h = ground (arith, h)

-- All of the first handlers have returned.
abbrev pub HaveReturned : ℕ → (ℕ → Pc) → Type 0
HaveReturned zero pc = Unit
HaveReturned (suc n) pc = HaveReturned n pc × ((r : Reply) × (pc n ≡ returned r))

weight-eq-zero : (p : Pc) → weight p ≡ 0 → (r : Reply) × (p ≡ returned r)
weight-eq-zero (returned r) e = (r, refl)
weight-eq-zero (called q) e = absurd (omega (arith, e))
weight-eq-zero (storing b) e = absurd (omega (arith, e))
weight-eq-zero (writing b) e = absurd (omega (arith, e))
weight-eq-zero written e = absurd (omega (arith, e))
weight-eq-zero loading e = absurd (omega (arith, e))
weight-eq-zero testing e = absurd (omega (arith, e))
weight-eq-zero encoding e = absurd (omega (arith, e))
weight-eq-zero (answered r) e = absurd (omega (arith, e))

total-HaveReturned : (n : ℕ) (pc : ℕ → Pc) → total n pc ≡ 0 → HaveReturned n pc
unfolding total
total-HaveReturned zero pc e = tt
total-HaveReturned (suc n) pc e =
    (total-HaveReturned n pc (omega (arith, e)), weight-eq-zero (pc n) (omega (arith, e)))

module _ {n : ℕ} {requests : ℕ → Request} where
  -- While some handler has not returned, some handler can move: one that waits can if the mutex is
  -- free, and else the one that holds it.
  progress :
      {h : List Op} {s : System}
      → Reach n requests h s
      → 0 < total n s.pc
      → (i : ℕ) × (i < n) × CanMove s.mem (s.pc i)
  progress {s} reach left =
      let (i, below, lt) = left_over n s.pc left in
      elim (Bool-cases s.mem.locked) [
        | inl taken ↦
            let (j, under, h) = (Reach-Inv reach).exclusive.held taken in
            let (busy, no_wait) = holds-busy (s.pc j) h in
            (j, under, can_move s.mem (s.pc j) busy (λ w. ground (arith, no_wait, w)))
        | inr free ↦ (i, below, can_move s.mem (s.pc i) lt (λ w. free))
      ]

  finish :
      (k : ℕ) {h : List Op} {s : System}
      → Reach n requests h s
      → total n s.pc ≤ k
      → (t : System) × Until n t s × HaveReturned n t.pc
  finish zero {h} {s} reach le = (s, now, total-HaveReturned n s.pc (omega (arith, le)))
  finish (suc k) {h} {s} reach le = elim (dec_lt 0 (total n s.pc)) [
    | yes lt ↦
        let (i, below, (l, m', p', mv)) = progress reach lt in
        let less = total-assign n s.pc i p' below (Move-weight mv) in
        let (t, steps, done) = finish k (next reach (pick i below mv)) (omega (arith, le, less)) in
        (t, after (pick i below mv) steps, done)
    | no ge ↦ (s, now, total-HaveReturned n s.pc (omega (arith, ge)))
  ]

  -- From every reachable state the handlers can go on until all have returned: there is no deadlock.
  Reach-HaveReturned :
      {h : List Op} {s : System}
      → Reach n requests h s
      → (t : System) × Until n t s × HaveReturned n t.pc
  Reach-HaveReturned {s} reach = finish (total n s.pc) reach (omega arith)

  -- How many moves have been made.
  abbrev pub moves : {h : List Op} {s : System} → Reach n requests h s → ℕ
  moves here = 0
  moves (next reach st) = moves reach + 1

  moves-total :
      {h : List Op} {s : System} (reach : Reach n requests h s) → moves reach + total n s.pc ≤ 5 * n
  moves-total here = omega (arith, total_le n (start requests).pc)
  moves-total (next {s = s} reach (pick i {p = p'} below mv)) =
      omega (arith, moves-total reach, total-assign n s.pc i p' below (Move-weight mv))

  -- Under every schedule no more than five moves are made for each handler, and in every state that is
  -- reached all handlers have returned or one of them can move: so each schedule that goes on while it
  -- can ends with all of them answered.
  pub Reach-ends :
      {h : List Op} {s : System} (reach : Reach n requests h s)
      → (moves reach ≤ 5 * n)
        × (HaveReturned n s.pc ⊎ ((l : Option Op) × (t : System) × Step n s l t))
  Reach-ends {s} reach = (
    omega (arith, moves-total reach),
    elim (dec_lt 0 (total n s.pc)) [
      | yes lt ↦ let (i, below, (l, m', p', mv)) = progress reach lt in inr (l, _, pick i below mv)
      | no ge ↦ inl (total-HaveReturned n s.pc (omega (arith, ge)))
    ],
  )
