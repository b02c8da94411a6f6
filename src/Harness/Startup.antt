-- ===== src/Harness/Startup.antt =====
-- tests/integration.go: `waitForStartup`.
use pucora_ce.Base.{ℕ, String, Option, none, some, str_eq, ◌==◌, if◌then◌else◌, ◌≡◌, refl, ◌↔◌, ◌⊎◌}
use pucora_ce.Base.{inl, inr, arith, eq_iff, Bool-cases}
use pucora_ce.Harness.Ready.{Reply, Unready, wait_for_ready}

-- What it returns, with how long it has slept of itself.
pub record Waited : Type 0 where
  pub error : Option Unready
  pub slept : ℕ

waited_ready : Option (Option Unready × ℕ) → Option Waited
waited_ready none = none
waited_ready (some (e, n)) = some (record { error = e; slept = 0 })

-- `none` only if the loop of `waitForReady` had no fuel.
unfoldable pub wait_for_startup : (ℕ → Reply) → (ℕ → ℕ) → String → ℕ → ℕ → ℕ → Option Waited
unfolding waited_ready
wait_for_startup reply latency ready_url ready_url_wait startup_wait now =
    if str_eq ready_url ""
    then some (record { error = none; slept = if startup_wait == 0 then 1500 else startup_wait })
    else waited_ready (wait_for_ready reply latency ready_url ready_url_wait now)

waited_ready_iff :
    (o : Option (Option Unready × ℕ))
    → ((w : Waited) × (waited_ready o ≡ some w) × (w.error ≡ none))
      ↔ ((n : ℕ) × (o ≡ some (none, n)))
unfolding waited_ready
waited_ready_iff none =
    ((λ (w, e, h). absurd (ground (arith, e))), (λ (n, e). absurd (ground (arith, e))))
waited_ready_iff (some (none, k)) =
    ((λ h. (k, refl)), (λ h. (record { error = none; slept = 0 }, refl, refl)))
waited_ready_iff (some (some u, k)) =
    ((λ (w, e, h). absurd (ground (arith, e, h))), (λ (n, e). absurd (ground (arith, e))))

-- The wait ends without an error exactly if there is nothing to ask, or the last answer is good.
pub wait_for_startup-ready_iff :
    (reply : ℕ → Reply) (latency : ℕ → ℕ) (url : String) (url_wait startup_wait now : ℕ)
    → ((w : Waited) × (wait_for_startup reply latency url url_wait startup_wait now ≡ some w)
        × (w.error ≡ none))
      ↔ ((url ≡ "") ⊎ ((n : ℕ) × (wait_for_ready reply latency url url_wait now ≡ some (none, n))))
unfolding wait_for_startup
wait_for_startup-ready_iff reply latency url url_wait startup_wait now =
    let (to, from) = waited_ready_iff (wait_for_ready reply latency url url_wait now) in
    elim (Bool-cases (str_eq url "")) [
      | inl nothing ↦ rw nothing ((λ h. inl ((eq_iff url "").0 nothing)), (λ h. (_, refl, refl)))
      | inr asked ↦ rw asked (
        (λ h. inr (to h)),
        (λ h. elim h [
          | inl e ↦ absurd (ground (arith, asked, (eq_iff url "").1 e))
          | inr r ↦ from r
        ]),
      )
    ]
