-- ===== src/Demo/Streaming.antt =====
-- examples/streaming/mock-backend/main.go: the handlers that stream events and chunks.
use pucora_ce.Base.{ℕ, zero, suc, ◌+◌, ◌≤◌, ◌<◌, String, Bool, true, false, not, List, []}
use pucora_ce.Base.{◌∷◌, ◌≡◌, refl, ◌⊎◌, inl, inr, Option, none, some, str_eq, arith}
use pucora_ce.Base.{if◌then◌else◌, Bool-cases, ltb, ap, ◌∙◌}

-- What `Sscanf` with `%d` finds at the start of a text.
pub data Scanned : Type 0 where
  natural : ℕ → Scanned
  negative : ℕ → Scanned
  no_number : Scanned

positive_or : ℕ → Scanned → ℕ
positive_or fallback (natural n) = if ltb 0 n then n else fallback
positive_or fallback (negative n) = fallback
positive_or fallback no_number = fallback

unfoldable pub env_int : (String → Scanned) → (String → String) → String → ℕ → ℕ
unfolding positive_or
env_int scan getenv key fallback =
    let v = getenv key in if not (str_eq v "") then positive_or fallback (scan v) else fallback

-- Durations are in nanoseconds; `parse` is `time.ParseDuration`, with zero for a negative duration,
-- which is no pause either.
parsed_or : ℕ → Option ℕ → ℕ
parsed_or fallback none = fallback
parsed_or fallback (some d) = d

unfoldable pub env_duration : (String → Option ℕ) → (String → String) → String → ℕ → ℕ
unfolding parsed_or
env_duration parse getenv key fallback =
    let v = getenv key in if not (str_eq v "") then parsed_or fallback (parse v) else fallback

-- What is written: the error of a writer that cannot flush, an event with its number and the pause
-- after it, or a chunk.
pub data Written : Type 0 where
  unsupported started : Written
  tick : (seq pause : ℕ) → Written
  chunk : String → Written

env_int-pos :
    (scan : String → Scanned) (getenv : String → String) (key : String) (fallback : ℕ)
    → 0 < fallback
    → 0 < env_int scan getenv key fallback
unfolding env_int
env_int-pos scan getenv key fallback h = ground (arith, h)

-- Whether the request's context is done when a round begins, by the number of rounds before.
module _ (is_done : ℕ → Bool) where
  -- The loop `for i := 1; i <= count; i++`, after `done` rounds, with `left` to come.
  unfoldable pub ticks : ℕ → ℕ → ℕ → List Written
  ticks pause zero done = []
  ticks pause (suc left) done =
      let rest = ticks pause left (done + 1) in
      if is_done done then [] else tick (done + 1) pause ∷ rest

  -- With the environment and what reads its values, and whether the writer can flush.
  unfoldable pub sse_handler :
      (String → Scanned) → (String → Option ℕ) → (String → String) → Bool → List Written
  sse_handler scan parse getenv false = unsupported ∷ []
  sse_handler scan parse getenv true =
      let count = env_int scan getenv "SSE_EVENT_COUNT" 6 in
      let interval = env_duration parse getenv "SSE_INTERVAL" 500000000 in
      started ∷ ticks interval count 0

  unfoldable pub chunks : List String → ℕ → List Written
  chunks [] done = []
  chunks (c ∷ cs) done =
      let rest = chunks cs (done + 1) in if is_done done then [] else chunk c ∷ rest

  unfoldable pub chunked_handler : Bool → List Written
  chunked_handler false = unsupported ∷ []
  chunked_handler true = started ∷ chunks ("alpha-" ∷ "bravo-" ∷ "charlie-" ∷ []) 0

  -- The events with the numbers from `i + 1` on.
  abbrev pub numbered : ℕ → ℕ → ℕ → List Written
  numbered pause zero i = []
  numbered pause (suc k) i = tick (i + 1) pause ∷ numbered pause k (i + 1)

  -- How many rounds of a loop are made.
  record Rounds (count done k : ℕ) : Type 0 where
    bound : k ≤ count
    going : (j : ℕ) → j < k → is_done (done + j) ≡ false
    reason : (k ≡ count) ⊎ (is_done (done + k) ≡ true)

  later_going :
      (done k : ℕ)
      → is_done done ≡ false
      → ((j : ℕ) → j < k → is_done (done + 1 + j) ≡ false)
      → (j : ℕ) → j < suc k
      → is_done (done + j) ≡ false
  later_going done k more g zero l = ap is_done (omega arith) ∙ more
  later_going done k more g (suc j) l = ap is_done (omega arith) ∙ g j (omega (arith, l))

  later_Rounds :
      (count done k : ℕ)
      → is_done done ≡ false
      → Rounds count (done + 1) k
      → Rounds (suc count) done (suc k)
  later_Rounds count done k more r = record {
    bound = omega (arith, r.bound);
    going = later_going done k more r.going;
    reason = elim r.reason [ inl e ↦ inl (ap suc e) | inr e ↦ inr (ap is_done (omega arith) ∙ e) ];
  }

  ticks_lem :
      (pause count done : ℕ)
      → (k : ℕ) × (ticks pause count done ≡ numbered pause k done) × Rounds count done k
  unfolding ticks
  ticks_lem pause zero done = (
    0,
    refl,
    record { bound = omega arith; going = λ j l. absurd (omega (arith, l)); reason = inl refl },
  )
  ticks_lem pause (suc count) done = elim (Bool-cases (is_done done)) [
    | inl stop ↦ (
      0,
      rw stop refl,
      record {
        bound = omega arith;
        going = λ j l. absurd (omega (arith, l));
        reason = inr (ap is_done (omega arith) ∙ stop);
      },
    )
    | inr more ↦
        let (k, e, r) = ticks_lem pause count (done + 1) in
        (suc k, rw more (ap (λ es. tick (done + 1) pause ∷ es) e), later_Rounds count done k more r)
  ]

  -- A writer that can flush gets the events with the numbers 1, 2, … in their order, each with the
  -- pause that the environment asks for, and no more of them than it asks for, which is at least one.
  -- Each of them is written in a round that found the context not done; and all are written, or the
  -- context is done in the round after the last of them.
  pub sse_handler-numbered :
      (scan : String → Scanned) (parse : String → Option ℕ) (getenv : String → String)
      → let count = env_int scan getenv "SSE_EVENT_COUNT" 6 in
        let interval = env_duration parse getenv "SSE_INTERVAL" 500000000 in
        (0 < count)
        × (k : ℕ) × (sse_handler scan parse getenv true ≡ started ∷ numbered interval k 0)
        × (k ≤ count)
        × ((j : ℕ) → j < k → is_done j ≡ false)
        × ((k ≡ count) ⊎ (is_done k ≡ true))
  unfolding sse_handler
  sse_handler-numbered scan parse getenv =
      let count = env_int scan getenv "SSE_EVENT_COUNT" 6 in
      let interval = env_duration parse getenv "SSE_INTERVAL" 500000000 in
      let (k, e, r) = ticks_lem interval count 0 in
      (
        env_int-pos scan getenv "SSE_EVENT_COUNT" 6 (omega arith),
        k,
        ap (λ es. started ∷ es) e,
        r.bound,
        (λ j l. ap is_done (omega arith) ∙ r.going j l),
        elim r.reason [ inl all ↦ inl all | inr stop ↦ inr (ap is_done (omega arith) ∙ stop) ],
      )
