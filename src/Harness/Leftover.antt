-- ===== src/Harness/Leftover.antt =====
-- cmd/pucora-integration/main.go: what the command leaves running, for any test cases and any check of
-- them.
use pucora_ce.Base.{
  ℕ, String, true, false, List, [], ◌∷◌, ◌≡◌, ◌≢◌, refl, ◌↔◌, ◌⊎◌, inl, inr, Option,
}
use pucora_ce.Base.{none, some, arith, length, Any}
use pucora_ce.Base.Result.{Result, ok, err}
use pucora_ce.Harness.Runner.{World, Runner, gateway, mocked_backend, close, idle, new_integration}
use pucora_ce.Harness.Main.{
  Verdict, crashed, Verdict-cases, Tally, Ended, finished, broken, no_errors, case_passed,
  case_wrong, run_cases, finish, main,
}

abbrev both : World
both = record { process = true; backend = true }

-- After the end of the command, the process of a gateway that it has not stopped.
abbrev pub orphaned : World
orphaned = record { process = true; backend = false }

abbrev full_runner : Runner
full_runner = record { close_funcs = gateway ∷ mocked_backend ∷ []; closed = false }

module _ {T : Type 0} (name : T → String) (check : T → Verdict) where
  abbrev pub AnyCrashed : List T → Type 0
  AnyCrashed tcs = Any (λ tc. check tc ≡ crashed) tcs

  abbrev IsBroken : Ended → Type 0
  IsBroken (finished t) = ⊥
  IsBroken (broken t) = Unit

  run_cases-IsBroken :
      (t : Tally) (tcs : List T) → IsBroken (run_cases name check t tcs) ↔ AnyCrashed tcs
  unfolding run_cases
  run_cases-IsBroken t [] = ((λ h. h), (λ h. h))
  run_cases-IsBroken t (tc ∷ tcs) = elim (Verdict-cases (check tc)) [
    | inl c ↦ ground (arith, c, run_cases-IsBroken (case_passed name check t tc) tcs)
    | inr (inl (e, c)) ↦ ground (arith, c, run_cases-IsBroken (case_wrong name check t tc e) tcs)
    | inr (inr c) ↦ ground (arith, c)
  ]

  finish-orphaned :
      (n : ℕ) (e : Ended) → ((finish name check n full_runner both e).world ≡ orphaned) ↔ IsBroken e
  unfolding finish close
  finish-orphaned n (broken t) = ((λ h. tt), (λ h. refl))
  finish-orphaned n (finished t) = ground arith

  finish-left :
      (n : ℕ) (e : Ended)
      → ((finish name check n full_runner both e).world ≡ idle)
        ⊎ ((finish name check n full_runner both e).world ≡ orphaned)
  unfolding finish close
  finish-left n (broken t) = inr refl
  finish-left n (finished t) = ground arith

  -- The command that starts a gateway and does not stop it.
  abbrev pub Abandons : Option String → Result (List T) → Option String → Type 0
  Abandons start cases waited =
      (start ≡ none) × (tcs : List T) × (cases ≡ ok tcs) × ((waited ≢ none) ⊎ AnyCrashed tcs)

  pub main-orphaned_iff :
      (start : Option String) (cases : Result (List T)) (waited : Option String)
      → ((main name check (new_integration start cases waited idle)).world ≡ orphaned)
        ↔ Abandons start cases waited
  unfolding main new_integration
  main-orphaned_iff (some e) cases waited = ground arith
  main-orphaned_iff none (err e) waited = ground arith
  main-orphaned_iff none (ok tcs) (some e) =
      ((λ h. (refl, tcs, refl, inl (λ x. ground (arith, x)))), (λ h. refl))
  main-orphaned_iff none (ok tcs) none =
      let (to, from) = finish-orphaned (length tcs) (run_cases name check no_errors tcs) in
      let (into, out) = run_cases-IsBroken no_errors tcs in
      (
        (λ h. (refl, tcs, refl, inr (into (to h)))),
        (λ (s, ts, e, why). elim why [
          | inl w ↦ absurd (w refl)
          | inr c ↦ let same : tcs ≡ ts = ground (arith, e) in from (out (rw same c))
        ]),
      )

  pub main-left :
      (start : Option String) (cases : Result (List T)) (waited : Option String)
      → ((main name check (new_integration start cases waited idle)).world ≡ idle)
        ⊎ ((main name check (new_integration start cases waited idle)).world ≡ orphaned)
  unfolding main new_integration
  main-left (some e) cases waited = inl refl
  main-left none (err e) waited = inl refl
  main-left none (ok tcs) (some e) = inr refl
  main-left none (ok tcs) none = finish-left (length tcs) (run_cases name check no_errors tcs)
