-- ===== src/Demo/Webhook/Invariant.antt =====
-- What holds in every state of the webhook that is reachable.
use pucora_ce.Base.{
  ℕ, ◌<◌, Bool, true, false, List, [], ◌∷◌, ◌≡◌, refl, Option, none, some, is_some,
}
use pucora_ce.Base.{◌==◌, arith, Bool-cases, inl, inr, sym, ◌∙◌, ap}
use pucora_ce.Base.Json.{Fields}
use pucora_ce.Demo.Webhook.{
  Store, Request, Reply, Pc, written, encoding, answered, returned, Op, put, get, Move, healthy,
  undecoded, decoded, lock_store, store, unlock_store, asked, lock_load, absent, present, encode,
  unlock_load, System, assign, Step, pick, start, logged, Reach, here, next, done_ok, not_found,
  encoded,
}
use pucora_ce.Demo.Webhook.Mutex.{holds, IsExclusive, kept, locked, unlocked}
use pucora_ce.Demo.Webhook.Spec.{Occurs, latest, answer, IsAtomic}

abbrev pub is_encoding : Pc → Bool
is_encoding encoding = true
is_encoding _ = false

-- A handler that encodes the message has found one.
abbrev pub IsFound : Option Fields → (ℕ → Pc) → Type 0
IsFound o pc = (i : ℕ) → is_encoding (pc i) ≡ true → is_some o ≡ true

-- The answer that `/last` is about to give or has given.
abbrev pub reply_of : Pc → Option Reply
reply_of (answered r) = some r
reply_of (returned not_found) = some not_found
reply_of (returned (encoded o)) = some (encoded o)
reply_of _ = none

-- Every such answer stands in the history.
abbrev pub IsRecorded : List Op → (ℕ → Pc) → Type 0
IsRecorded h pc = (i : ℕ) (r : Reply) → reply_of (pc i) ≡ some r → Occurs (get r) h

pub record Inv (n : ℕ) (h : List Op) (m : Store) (pc : ℕ → Pc) : Type 0 where
  pub atomic : IsAtomic h
  pub same : latest h ≡ m.last_msg
  pub exclusive : IsExclusive n m.locked pc
  pub found : IsFound m.last_msg pc
  pub recorded : IsRecorded h pc

module _ (pc : ℕ → Pc) (i : ℕ) (p' : Pc) where
  found-assign :
      (o : Option Fields)
      → (is_encoding p' ≡ true → is_some o ≡ true)
      → IsFound o pc
      → IsFound o (assign pc i p')
  unfolding assign
  found-assign o e f j = ground (arith, e, f j)

  IsRecorded-assign :
      (h : List Op)
      → ((r : Reply) → reply_of p' ≡ some r → Occurs (get r) h)
      → IsRecorded h pc
      → IsRecorded h (assign pc i p')
  unfolding assign
  IsRecorded-assign h e f j r = elim (Bool-cases (i == j)) [
    | inl same ↦ rw same (e r)
    | inr other ↦ rw other (f j r)
  ]

after_unlock : (r a : Reply) → reply_of (returned r) ≡ some a → some r ≡ some a
after_unlock r a g = ground (arith, g)

module _ {n : ℕ} {h : List Op} {m : Store} {pc : ℕ → Pc} (inv : Inv n h m pc) (i : ℕ) where
  -- A move that changes neither the store nor who holds the mutex.
  quiet :
      (p' : Pc)
      → holds (pc i) ≡ holds p'
      → (is_encoding p' ≡ true → is_some m.last_msg ≡ true)
      → reply_of p' ≡ none
      → Inv n h m (assign pc i p')
  quiet p' e f q = record {
    atomic = inv.atomic;
    same = inv.same;
    exclusive = kept pc i p' e inv.exclusive;
    found = found-assign pc i p' m.last_msg f inv.found;
    recorded = IsRecorded-assign pc i p' h (λ r g. ground (arith, q, g)) inv.recorded;
  }

  lock :
      (p' : Pc)
      → i < n
      → m.locked ≡ false
      → holds p' ≡ true
      → is_encoding p' ≡ false
      → reply_of p' ≡ none
      → Inv n h (record m { locked = true }) (assign pc i p')
  lock p' lt free e f q = record {
    atomic = inv.atomic;
    same = inv.same;
    exclusive = locked pc i p' lt e (rw (← free) inv.exclusive);
    found = found-assign pc i p' m.last_msg (λ g. ground (arith, f, g)) inv.found;
    recorded = IsRecorded-assign pc i p' h (λ r g. ground (arith, q, g)) inv.recorded;
  }

  unlock :
      (r : Reply)
      → holds (pc i) ≡ true
      → ((a : Reply) → reply_of (returned r) ≡ some a → Occurs (get a) h)
      → Inv n h (record m { locked = false }) (assign pc i (returned r))
  unlock r e q = record {
    atomic = inv.atomic;
    same = inv.same;
    exclusive = unlocked pc i (returned r) e refl inv.exclusive;
    found = found-assign pc i (returned r) m.last_msg (λ g. ground (arith, g)) inv.found;
    recorded = IsRecorded-assign pc i (returned r) h q inv.recorded;
  }

  -- While one handler writes, no other encodes.
  stored :
      (b : Option Fields)
      → holds (pc i) ≡ true
      → Inv n (put b ∷ h) (record m { last_msg = b }) (assign pc i written)
  unfolding assign
  stored b e = record {
    atomic = inv.atomic;
    same = refl;
    exclusive = kept pc i written e inv.exclusive;
    found = λ j g. ground (arith, inv.exclusive.unique i j e);
    recorded =
        IsRecorded-assign pc i written (put b ∷ h) (λ r g. ground (arith, g))
          (λ j r g. inr (inv.recorded j r g));
  }

  settled :
      (r : Reply)
      → holds (pc i) ≡ true
      → r ≡ answer m.last_msg
      → Inv n (get r ∷ h) m (assign pc i (answered r))
  settled r e a = record {
    atomic = (a ∙ ap answer (sym inv.same), inv.atomic);
    same = inv.same;
    exclusive = kept pc i (answered r) e inv.exclusive;
    found = found-assign pc i (answered r) m.last_msg (λ g. ground (arith, g)) inv.found;
    recorded =
        IsRecorded-assign pc i (answered r) (get r ∷ h) (λ b g. inl (ground (arith, g)))
          (λ j b g. inr (inv.recorded j b g));
  }

  Move-Inv :
      {p p' : Pc} {l : Option Op} {m' : Store}
      → i < n
      → pc i ≡ p
      → Move m p l m' p'
      → Inv n (logged l h) m' (assign pc i p')
  Move-Inv lt e healthy = quiet _ (ap holds e) (λ g. ground (arith, g)) refl
  Move-Inv lt e (undecoded x) = quiet _ (ap holds e) (λ g. ground (arith, g)) refl
  Move-Inv lt e (decoded b) = quiet _ (ap holds e) (λ g. ground (arith, g)) refl
  Move-Inv lt e (lock_store b free) = lock _ lt free refl refl refl
  Move-Inv lt e (store b) = stored b (ap holds e)
  Move-Inv lt e unlock_store = unlock done_ok (ap holds e) (λ a g. ground (arith, g))
  Move-Inv lt e asked = quiet _ (ap holds e) (λ g. ground (arith, g)) refl
  Move-Inv lt e (lock_load free) = lock _ lt free refl refl refl
  Move-Inv lt e (absent a) = settled not_found (ap holds e) (ap answer (sym a))
  Move-Inv lt e (present b a) = quiet _ (ap holds e) (λ g. ap is_some a) refl
  Move-Inv lt e (encode o a) =
      settled (encoded o) (ap holds e) (ground (arith, inv.found i (ap is_encoding e)))
  Move-Inv lt e (unlock_load r) =
      unlock r (ap holds e) (λ a g. inv.recorded i a (ap reply_of e ∙ after_unlock r a g))

start-Inv : (n : ℕ) (requests : ℕ → Request) → Inv n [] (start requests).mem (start requests).pc
start-Inv n requests = record {
  atomic = tt;
  same = refl;
  exclusive = record {
    unique = λ i j a. ground (arith, a);
    taken = λ i a. ground (arith, a);
    held = λ a. ground (arith, a);
  };
  found = λ i a. ground (arith, a);
  recorded = λ i r a. ground (arith, a);
}

Step-Inv :
    {n : ℕ} {h : List Op} {s t : System} {l : Option Op}
    → Inv n h s.mem s.pc
    → Step n s l t
    → Inv n (logged l h) t.mem t.pc
Step-Inv inv (pick i lt mv) = Move-Inv inv i lt refl mv

pub Reach-Inv :
    {n : ℕ} {requests : ℕ → Request} {h : List Op} {s : System}
    → Reach n requests h s
    → Inv n h s.mem s.pc
Reach-Inv {n} {requests} here = start-Inv n requests
Reach-Inv (next r st) = Step-Inv (Reach-Inv r) st
