-- ===== src/Harness/Main.antt =====
-- cmd/pucora-integration/main.go: the command that runs all test cases.
use pucora_ce.Base.{
  ℕ, ◌+◌, String, true, false, List, [], ◌∷◌, ◌≡◌, refl, ◌↔◌, ◌⊎◌, inl, inr, Option,
}
use pucora_ce.Base.{none, some, ◌≤◌, ◌==◌, arith, if◌then◌else◌, length, All, ◌++◌}
use pucora_ce.Base.Result.{Result, ok, err}
use pucora_ce.Harness.Runner.{
  World, Integration, failed, started, Runner, close, idle, new_integration, gateway,
  mocked_backend,
}

pub data Line : Type 0 where
  text : String → Line
  case_failed : String → String → Line
  case_ok : String → Line
  completed failed_count : ℕ → Line

-- What the check of a test case comes to: nil, an error, or a panic.
pub data Verdict : Type 0 where
  passed : Verdict
  wrong : String → Verdict
  crashed : Verdict

pub Verdict-cases : (v : Verdict) → (v ≡ passed) ⊎ (((e : String) × (v ≡ wrong e)) ⊎ (v ≡ crashed))
Verdict-cases passed = inl refl
Verdict-cases (wrong e) = inr (inl (e, refl))
Verdict-cases crashed = inr (inr refl)

-- The status that the process ends with, its lines, and which servers run after its end.
pub record Exit : Type 0 where
  pub status : ℕ
  pub lines : List Line
  pub world : World

-- The variables of the loop over the test cases.
pub record Tally : Type 0 where
  pub errors : ℕ
  pub lines : List Line

-- The loop ends with the last test case, or with a panic.
pub data Ended : Type 0 where
  finished broken : Tally → Ended

-- The mocked backend is a goroutine of the process, and ends with it.
abbrev pub process_ended : World → World
process_ended w = record w { backend = false }

abbrev pub no_errors : Tally
no_errors = record { errors = 0; lines = [] }

module _ {T : Type 0} (name : T → String) (check : T → Verdict) where
  pub case_passed : Tally → T → Tally
  case_passed t tc = record t { lines = t.lines ++ (case_ok (name tc) ∷ []) }

  pub case_wrong : Tally → T → String → Tally
  case_wrong t tc e = record {
    errors = t.errors + 1;
    lines = t.lines ++ (case_failed (name tc) e ∷ []);
  }

  unfoldable pub run_cases : Tally → List T → Ended
  unfolding case_passed case_wrong
  run_cases t [] = finished t
  run_cases t (tc ∷ tcs) = elim (check tc) [
    | passed ↦ run_cases (case_passed t tc) tcs
    | wrong e ↦ run_cases (case_wrong t tc e) tcs
    | crashed ↦ broken t
  ]

  unfoldable pub finish : ℕ → Runner → World → Ended → Exit
  finish n r w (broken t) = record { status = 2; lines = t.lines; world = process_ended w }
  finish n r w (finished t) =
      if t.errors == 0
      then record {
        status = 0;
        lines = t.lines ++ (completed n ∷ []);
        world = process_ended (close r w).1;
      }
      else record {
        status = 1;
        lines = t.lines ++ (completed n ∷ failed_count t.errors ∷ []);
        world = process_ended (close r w).1;
      }

  unfoldable pub main : Integration T × World → Exit
  main (failed e, w) = record { status = 1; lines = text e ∷ []; world = process_ended w }
  main (started r tcs, w) = finish (length tcs) r w (run_cases no_errors tcs)

  abbrev pub AllPassed : List T → Type 0
  AllPassed tcs = All (λ tc. check tc ≡ passed) tcs

  -- A loop that does not panic counts the test cases that fail.
  run_cases_iff :
      (t u : Tally) (tcs : List T)
      → run_cases t tcs ≡ finished u
      → (t.errors ≤ u.errors) × ((u.errors ≡ t.errors) → AllPassed tcs)
  unfolding run_cases case_passed case_wrong
  run_cases_iff t u [] e = ground (arith, e)
  run_cases_iff t u (tc ∷ tcs) e = elim (Verdict-cases (check tc)) [
    | inl c ↦ ground (arith, c, e, run_cases_iff (case_passed t tc) u tcs)
    | inr (inl (x, c)) ↦ ground (arith, c, e, run_cases_iff (case_wrong t tc x) u tcs)
    | inr (inr c) ↦ absurd (ground (arith, c, e))
  ]

  run_cases_of_AllPassed :
      (t : Tally) (tcs : List T)
      → AllPassed tcs
      → (u : Tally) × (run_cases t tcs ≡ finished u) × (u.errors ≡ t.errors)
  unfolding run_cases case_passed
  run_cases_of_AllPassed t [] h = (t, refl, refl)
  run_cases_of_AllPassed t (tc ∷ tcs) (h, hs) =
      let (u, e, f) = run_cases_of_AllPassed (case_passed t tc) tcs hs in
      (u, ground (arith, h, e), f)

  finish_iff :
      (n : ℕ) (r : Runner) (w : World) (e : Ended)
      → ((finish n r w e).status ≡ 0) ↔ ((u : Tally) × (e ≡ finished u) × (u.errors ≡ 0))
  unfolding finish
  finish_iff n r w (finished t) =
      ((λ h. (t, refl, ground (arith, h))), (λ (u, e, z). ground (arith, e, z)))
  finish_iff n r w (broken t) = ground arith

  -- The test cases that were read all pass.
  abbrev pub AllPass : Result (List T) → Type 0
  AllPass (err e) = ⊥
  AllPass (ok tcs) = AllPassed tcs

  started_iff :
      (r : Runner) (w : World) (tcs : List T)
      → ((finish (length tcs) r w (run_cases no_errors tcs)).status ≡ 0) ↔ AllPassed tcs
  started_iff r w tcs = (
    (λ h.
        let (u, e, z) = (finish_iff (length tcs) r w (run_cases no_errors tcs)).0 h in
        (run_cases_iff no_errors u tcs e).1 z),
    (λ h.
        (finish_iff (length tcs) r w (run_cases no_errors tcs)).1
          (run_cases_of_AllPassed no_errors tcs h)),
  )

  -- The command exits with 0 exactly when the gateway starts, the specs are read, the wait for the
  -- servers succeeds and every test case passes.
  pub main-succeeds_iff :
      (start : Option String) (cases : Result (List T)) (waited : Option String)
      → ((main (new_integration start cases waited idle)).status ≡ 0)
        ↔ ((start ≡ none) × (waited ≡ none) × AllPass cases)
  unfolding main new_integration
  main-succeeds_iff (some e) cases waited = ground arith
  main-succeeds_iff none (err e) waited = ground arith
  main-succeeds_iff none (ok tcs) (some e) = ground arith
  main-succeeds_iff none (ok tcs) none = ground (
    arith,
    started_iff (record { close_funcs = gateway ∷ mocked_backend ∷ []; closed = false })
        (record { process = true; backend = true }) tcs,
  )
