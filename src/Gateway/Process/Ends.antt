-- ===== src/Gateway/Process/Ends.antt =====
-- The process of `pucora run` returns under every schedule, once a signal has been delivered.
use pucora_ce.Base.{
  ℕ, suc, ◌+◌, ◌≤◌, Bool, true, false, List, [], ◌∷◌, ◌++◌, ◌≡◌, refl, ◌∙◌, sym, ap,
}
use pucora_ce.Base.{
  ◌⊎◌, inl, inr, arith, length, Bool-cases, Option-cases, List-cases, append_assoc, append-nil,
}
use pucora_ce.Executor.Collaborators.{Libraries}
use pucora_ce.Executor.Event.{Event}
use pucora_ce.Gateway.Signal as Signal
use pucora_ce.Gateway.Signal.{
  Waiter, selecting, logging, cancelling, ended, Wait, Inv, Step-Inv, receive, see_done, log,
  cancel, Waiter-cases,
}
use pucora_ce.Gateway.Process.{
  Ending, State, Move, wait, call, finish, Arrive, deliver, drop, Reach, here, moved, arrived,
}

-- How many moves the goroutine has yet to make.
abbrev left : Waiter → ℕ
left selecting = 3
left (logging sig) = 2
left cancelling = 1
left ended = 0

abbrev unreturned : Bool → ℕ
unreturned true = 0
unreturned false = 1

Wait-left : {s t : Signal.State} → Wait s t → suc (left t.waiter) ≤ left s.waiter
Wait-left (receive sig a b) = ground (arith, a)
Wait-left (see_done a b) = ground (arith, a)
Wait-left (log sig a) = ground (arith, a)
Wait-left (cancel a) = ground (arith, a)

Wait-returned : {s t : Signal.State} → Wait s t → t.returned ≡ s.returned
Wait-returned (receive sig a b) = refl
Wait-returned (see_done a b) = refl
Wait-returned (log sig a) = refl
Wait-returned (cancel a) = refl

module _ {L : Libraries} where
  measure : State L → ℕ
  measure s = left s.signal.waiter + length s.rest + unreturned s.signal.returned

  Move-measure : {R : Ending L} {s t : State L} → Move R s t → suc (measure t) ≤ measure s
  unfolding measure
  Move-measure (wait w) = omega (arith, Wait-left w, ap unreturned (Wait-returned w))
  Move-measure (call e es r may) = ground (arith, r)
  Move-measure (finish r n) = ground (arith, r, n)

  Arrive-measure : {s t : State L} → Arrive s t → measure t ≡ measure s
  unfolding measure
  Arrive-measure (deliver sig a) = refl
  Arrive-measure (drop sig old a) = refl

  Reach-measure :
      {R : Ending L} {events : List (Event L)} {n : ℕ} {s : State L}
      → Reach R events n s
      → n + measure s ≤ length events + 4
  unfolding measure
  Reach-measure here = omega arith
  Reach-measure (moved r m) = omega (arith, Reach-measure r, Move-measure m)
  Reach-measure (arrived r a) = omega (arith, Reach-measure r, Arrive-measure a)

  -- The goroutine keeps its promises, no call is lost or made twice, and `main` returns only after
  -- the executor has.
  pub record Holds (events : List (Event L)) (s : State L) : Type 0 where
    pub signal_inv : Inv s.signal
    pub split : s.done ++ s.rest ≡ events
    pub over : s.signal.returned ≡ true → s.rest ≡ []

  Move-Holds :
      {R : Ending L} {events : List (Event L)} {s t : State L}
      → Move R s t
      → Holds events s
      → Holds events t
  Move-Holds (wait w) h = record {
    signal_inv = Step-Inv (Signal.wait w) h.signal_inv;
    split = h.split;
    over = λ r. h.over (sym (Wait-returned w) ∙ r);
  }
  Move-Holds {R} {events} {s} (call e es r may) h = record {
    signal_inv = h.signal_inv;
    split = append_assoc s.done (e ∷ []) es ∙ ap (λ rest. s.done ++ rest) (sym r) ∙ h.split;
    over = λ ret. absurd (ground (arith, h.over ret, r));
  }
  Move-Holds (finish r n) h = record {
    signal_inv = Step-Inv (Signal.return n) h.signal_inv;
    split = h.split;
    over = λ ret. r;
  }

  Arrive-Holds :
      {events : List (Event L)} {s t : State L} → Arrive s t → Holds events s → Holds events t
  Arrive-Holds (deliver sig a) h = record {
    signal_inv = Step-Inv (Signal.deliver sig a) h.signal_inv;
    split = h.split;
    over = h.over;
  }
  Arrive-Holds (drop sig old a) h = h

  Reach-Holds :
      {R : Ending L} {events : List (Event L)} {n : ℕ} {s : State L}
      → Reach R events n s
      → Holds events s
  Reach-Holds here = record {
    signal_inv = ground arith;
    split = refl;
    over = λ r. absurd (ground (arith, r));
  }
  Reach-Holds (moved r m) = Move-Holds m (Reach-Holds r)
  Reach-Holds (arrived r a) = Arrive-Holds a (Reach-Holds r)

  -- The process has made all calls of the executor and returned.
  abbrev pub IsOver : List (Event L) → State L → Type 0
  IsOver events s = (s.signal.returned ≡ true) × (s.done ≡ events)

  over_lem :
      {events : List (Event L)} {s : State L}
      → Holds events s
      → s.signal.returned ≡ true
      → IsOver events s
  over_lem {events} {s} h r =
      (r, sym (append-nil s.done) ∙ ap (λ rest. s.done ++ rest) (sym (h.over r)) ∙ h.split)

  -- Where every call comes to an end once the context is cancelled, nothing keeps the executor and
  -- `main` from going on then.
  advance :
      (R : Ending L)
      → ((done : List (Event L)) (e : Event L) → R true done e)
      → (s : State L) → s.signal.cancelled ≡ true
      → s.signal.returned ≡ false
      → (t : State L) × Move R s t
  advance R ends s c n = elim (List-cases s.rest) [
    | inl e ↦ (_, finish e n)
    | inr (e, es, r) ↦ (_, call e es r (rw c (ends s.done e)))
  ]

  -- Until then the goroutine goes on, once a signal was delivered.
  wake :
      (R : Ending L) (s : State L)
      → Inv s.signal
      → s.signal.delivered ≡ true
      → s.signal.cancelled ≡ false
      → (t : State L) × Move R s t
  wake R s inv d c = elim (Waiter-cases s.signal.waiter) [
    | inl e ↦ elim (Option-cases s.signal.sigs) [
      | inl none_left ↦ absurd (ground (arith, inv, c, d, e, none_left))
      | inr (sig, there) ↦ (_, wait (receive sig e there))
    ]
    | inr (inl (sig, e)) ↦ (_, wait (log sig e))
    | inr (inr (inl e)) ↦ (_, wait (cancel e))
    | inr (inr (inr e)) ↦ absurd (ground (arith, inv, c, e))
  ]

-- Where every call of the executor, the one of the router and the return of the agents included, comes
-- to an end once the context of `main` is cancelled: under every schedule, whatever the calls are and
-- however long they wait before, the process makes no more moves than there are calls to make, and
-- four; and once a signal was delivered, it has made all its calls and returned, or one of its moves can
-- be made. So each schedule that goes on while it can ends with all calls made.
pub Reach-IsOver :
    {L : Libraries} (R : Ending L)
    → ((done : List (Event L)) (e : Event L) → R true done e)
    → (events : List (Event L)) (n : ℕ) (s : State L) → Reach R events n s
    → s.signal.delivered ≡ true
    → (n ≤ length events + 4) × (IsOver events s ⊎ ((t : State L) × Move R s t))
Reach-IsOver R ends events n s r d =
    let h = Reach-Holds r in
    (
      omega (arith, Reach-measure r),
      elim (Bool-cases s.signal.returned) [
        | inl ret ↦ inl (over_lem h ret)
        | inr going ↦ elim (Bool-cases s.signal.cancelled) [
          | inl c ↦ inr (advance R ends s c going)
          | inr c ↦ inr (wake R s h.signal_inv d c)
        ]
      ],
    )
