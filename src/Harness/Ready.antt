-- ===== src/Harness/Ready.antt =====
-- tests/integration.go: `waitForReady`. Times are in milliseconds. The answers to the requests, and
-- how long each takes, are given as a sequence; `http.Get` gives a response or an error, never both.
use pucora_ce.Base.{ℕ, zero, suc, ◌+◌, ◌*◌, ◌-◌, ◌≤◌, ◌<◌, String, Bool, false, ◌≡◌, refl}
use pucora_ce.Base.{◌↔◌, inl, inr, Option, none, some, ltb, ◌==◌, arith, if◌then◌else◌}
use pucora_ce.Base.{Bool-cases, ap, ltb→lt}

pub data Reply : Type 0 where
  responded : ℕ → Reply
  refused : String → Reply

-- The error that `waitForReady` returns, if any.
pub data Unready : Type 0 where
  unreachable : String → String → Unready
  wrong_status : String → ℕ → Unready

abbrev pub second : ℕ
second = 1000

module _ (reply : ℕ → Reply) (latency : ℕ → ℕ) where
  unfoldable pub is_ready : Reply → Bool
  is_ready (responded code) = code == 200
  is_ready (refused e) = false

  -- The loop, before request `i` and with the latest reply: the last reply, and how many requests
  -- have been made. `none` means that the fuel ran out.
  unfoldable pub poll : ℕ → ℕ → ℕ → ℕ → Reply → Option (Reply × ℕ)
  poll zero i now deadline r = none
  poll (suc fuel) i now deadline r =
      let rest = poll fuel (i + 1) (now + second + latency i) deadline (reply i) in
      if is_ready r then some (r, i) else if ltb now deadline then rest else some (r, i)

  unfoldable pub outcome : String → Reply → Option Unready
  unfolding is_ready
  outcome url (responded code) = if code == 200 then none else some (wrong_status url code)
  outcome url (refused e) = some (unreachable url e)

  unfoldable pub report : String → Option (Reply × ℕ) → Option (Option Unready × ℕ)
  report url none = none
  report url (some (r, n)) = some (outcome url r, n)

  -- At least a second.
  abbrev pub at_least_second : ℕ → ℕ
  at_least_second wait = if ltb wait second then second else wait

  -- `waitForReady`, with the fuel that the deadline needs: each round takes a second or more.
  unfoldable pub wait_for_ready : String → ℕ → ℕ → Option (Option Unready × ℕ)
  wait_for_ready url wait now =
      let wait = at_least_second wait in
      report url (poll (suc wait) 1 (now + latency 0) (now + wait) (reply 0))

  -- What a loop ends with: the reply to the last request, and no more requests than whole seconds
  -- were left, and one.
  record Polled (i now deadline : ℕ) (q : Reply) (n : ℕ) : Type 0 where
    last : q ≡ reply (n - 1)
    grows : i ≤ n
    bounded : n * second < i * second + (deadline - now) + second

  earlier :
      (i now deadline : ℕ) (q : Reply) (n : ℕ)
      → now < deadline
      → Polled (i + 1) (now + second + latency i) deadline q n
      → Polled i now deadline q n
  earlier i now deadline q n early p = record {
    last = p.last;
    grows = omega (arith, p.grows);
    bounded = omega (arith, p.bounded);
  }

  poll_total :
      (fuel i now deadline : ℕ) (r : Reply)
      → deadline ≤ now + fuel * second
      → 1 ≤ i
      → r ≡ reply (i - 1)
      → (q : Reply) × (n : ℕ) × (poll (suc fuel) i now deadline r ≡ some (q, n))
        × Polled i now deadline q n
  unfolding poll
  poll_total zero i now deadline r h k e = (r, i, ground arith, ground arith)
  poll_total (suc fuel) i now deadline r h k e = elim (Bool-cases (is_ready r)) [
    | inl good ↦ (r, i, rw good, ground arith)
    | inr more ↦ elim (Bool-cases (ltb now deadline)) [
      | inl early ↦
          let (q, n, found, p) =
            poll_total fuel (i + 1) (now + second + latency i) deadline (reply i) (omega arith)
              (omega arith) (ap reply (omega arith)) in
          (q, n, rw (more, early) found, earlier i now deadline q n (ltb→lt now deadline early) p)
      | inr late ↦ (r, i, rw (more, late), ground arith)
    ]
  ]

  outcome-eq-none_iff : (url : String) (q : Reply) → (outcome url q ≡ none) ↔ (q ≡ responded 200)
  unfolding outcome
  outcome-eq-none_iff url q = ground arith

  -- `waitForReady` returns, after one request or more: no more than one for each second of the wait
  -- (which is a second at least), and two. Its error is that of the last reply: nil exactly if that
  -- reply had the status 200.
  pub wait_for_ready_total :
      (url : String) (wait now : ℕ)
      → (o : Option Unready) × (n : ℕ) × (wait_for_ready url wait now ≡ some (o, n))
        × (1 ≤ n)
        × (n * second < at_least_second wait + 2 * second)
        × ((o ≡ none) ↔ (reply (n - 1) ≡ responded 200))
  unfolding wait_for_ready report
  wait_for_ready_total url wait now =
      let w = at_least_second wait in
      let (q, n, found, p) =
        poll_total w 1 (now + latency 0) (now + w) (reply 0) (omega arith) (omega arith) refl in
      (
        outcome url q,
        n,
        ap (report url) found,
        p.grows,
        omega (arith, p.bounded),
        rw (← p.last) (outcome-eq-none_iff url q),
      )
