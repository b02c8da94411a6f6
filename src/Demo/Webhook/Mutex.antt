-- ===== src/Demo/Webhook/Mutex.antt =====
-- Who holds the mutex of the webhook, and what a move of one handler does to that.
use pucora_ce.Base.{ℕ, ◌<◌, Bool, true, false, ◌≡◌, refl}
use pucora_ce.Base.{◌==◌, arith, Bool-cases, inl, inr, sym, ◌∙◌, ap, ==_iff}
use pucora_ce.Demo.Webhook.{Pc, writing, written, testing, encoding, answered, assign}

-- Between the lock and the unlock.
abbrev pub holds : Pc → Bool
holds (writing b) = true
holds written = true
holds testing = true
holds encoding = true
holds (answered r) = true
holds _ = false

-- The mutex is locked exactly while a handler holds it, and no two hold it.
pub record IsExclusive (n : ℕ) (locked : Bool) (pc : ℕ → Pc) : Type 0 where
  pub unique : (i j : ℕ) → holds (pc i) ≡ true → holds (pc j) ≡ true → i ≡ j
  pub taken : (i : ℕ) → holds (pc i) ≡ true → locked ≡ true
  pub held : locked ≡ true → (i : ℕ) × (i < n) × (holds (pc i) ≡ true)

module _ (pc : ℕ → Pc) (i : ℕ) (p' : Pc) where
  holds-assign : (j : ℕ) → holds (pc i) ≡ holds p' → holds (assign pc i p' j) ≡ holds (pc j)
  unfolding assign
  holds-assign j e = elim (Bool-cases (i == j)) [
    | inl same ↦ rw same (sym e ∙ ap (λ k. holds (pc k)) ((==_iff i j).0 same))
    | inr other ↦ rw other refl
  ]

  pub kept :
      {n : ℕ} {b : Bool}
      → holds (pc i) ≡ holds p'
      → IsExclusive n b pc
      → IsExclusive n b (assign pc i p')
  kept e x = record {
    unique = λ j k. rw (holds-assign j e, holds-assign k e) (x.unique j k);
    taken = λ j. rw (holds-assign j e) (x.taken j);
    held = λ l. let (j, lt, h) = x.held l in (j, lt, holds-assign j e ∙ h);
  }

  pub locked :
      {n : ℕ}
      → i < n
      → holds p' ≡ true
      → IsExclusive n false pc
      → IsExclusive n true (assign pc i p')
  unfolding assign
  locked lt e x = record {
    unique = λ j k a b. ground (arith, x.taken j, x.taken k);
    taken = λ j a. refl;
    held = λ l. (i, lt, ground (arith, e));
  }

  pub unlocked :
      {n : ℕ} {b : Bool}
      → holds (pc i) ≡ true
      → holds p' ≡ false
      → IsExclusive n b pc
      → IsExclusive n false (assign pc i p')
  unfolding assign
  unlocked h e x = record {
    unique = λ j k a b. ground (arith, x.unique i j h, x.unique i k h);
    taken = λ j a. ground (arith, x.unique i j h);
    held = λ l. ground (arith, l);
  }
