-- ===== src/Harness/Cases.antt =====
-- tests/integration.go: `parseTestCase` and `testCases`.
use pucora_ce.Base.{◌≢◌}
use pucora_ce.Base.{String, List, [], ◌∷◌, ◌≡◌, refl, ◌↔◌}
use pucora_ce.Base.{arith, ap}
use pucora_ce.Base.Dict.{Dict}
use pucora_ce.Base.Result.{Result, ok, err}
use pucora_ce.Harness.Check.{TestCase}
use pucora_ce.Harness.Specs.{Entry, read_specs}

-- `decode` is `json.Unmarshal` into a test case; `order` puts the entries of the map into the order
-- in which the runtime yields them.
module _ (decode : String → Result TestCase) (order : Dict String → Dict String) where
  named : String → Result TestCase → Result TestCase
  named n (ok tc) = ok (record tc { name = n })
  named n (err e) = err e

  unfoldable pub parse_test_case : String → String → Result TestCase
  unfolding named
  parse_test_case n c = named n (decode c)

  prepended : Result TestCase → Result (List TestCase) → Result (List TestCase)
  prepended (err e) rest = err e
  prepended (ok tc) (err e) = err e
  prepended (ok tc) (ok tcs) = ok (tc ∷ tcs)

  unfoldable pub parse_all : Dict String → Result (List TestCase)
  unfolding prepended
  parse_all [] = ok []
  parse_all ((n, c) ∷ rest) = prepended (parse_test_case n c) (parse_all rest)

  unfoldable pub parsed_specs : Result (Dict String) → Result (List TestCase)
  parsed_specs (err e) = err e
  parsed_specs (ok m) = parse_all (order m)

  unfoldable pub test_cases : Result (List Entry) → Result (List TestCase)
  unfolding parsed_specs
  test_cases dir = parsed_specs (read_specs dir)

  -- The test cases of the entries, in their order, each with the name of its entry.
  abbrev pub AreDecoded : Dict String → List TestCase → Type 0
  AreDecoded [] [] = Unit
  AreDecoded [] (tc ∷ tcs) = ⊥
  AreDecoded (e ∷ es) [] = ⊥
  AreDecoded ((n, c) ∷ es) (tc ∷ tcs) =
      ((t : TestCase) × (decode c ≡ ok t) × (tc ≡ record t { name = n })) × AreDecoded es tcs

  named_iff :
      (n : String) (r : Result TestCase) (tc : TestCase)
      → (named n r ≡ ok tc) ↔ ((t : TestCase) × (r ≡ ok t) × (tc ≡ record t { name = n }))
  unfolding named
  named_iff n (ok t) tc = ((λ h. (t, refl, ground arith)), (λ (u, e, f). ground arith))
  named_iff n (err e) tc = ground arith

  prepended-nil : (r : Result TestCase) (rest : Result (List TestCase)) → prepended r rest ≢ ok []
  unfolding prepended
  prepended-nil (err e) rest = ground arith
  prepended-nil (ok tc) (err e) = ground arith
  prepended-nil (ok tc) (ok tcs) = ground arith

  prepended-cons :
      (r : Result TestCase) (rest : Result (List TestCase)) (tc : TestCase) (tcs : List TestCase)
      → (prepended r rest ≡ ok (tc ∷ tcs)) ↔ ((r ≡ ok tc) × (rest ≡ ok tcs))
  unfolding prepended
  prepended-cons (err e) rest tc tcs = ground arith
  prepended-cons (ok t) (err e) tc tcs = ground arith
  prepended-cons (ok t) (ok ts) tc tcs = ground arith

  parse_test_case_iff :
      (n c : String) (tc : TestCase)
      → (parse_test_case n c ≡ ok tc)
        ↔ ((t : TestCase) × (decode c ≡ ok t) × (tc ≡ record t { name = n }))
  unfolding parse_test_case
  parse_test_case_iff n c tc = named_iff n (decode c) tc

  parse_all_iff :
      (es : Dict String) (tcs : List TestCase) → (parse_all es ≡ ok tcs) ↔ AreDecoded es tcs
  unfolding parse_all
  parse_all_iff [] [] = ground arith
  parse_all_iff [] (tc ∷ tcs) = ground arith
  parse_all_iff ((n, c) ∷ es) [] =
      ground (arith, prepended-nil (parse_test_case n c) (parse_all es))
  parse_all_iff ((n, c) ∷ es) (tc ∷ tcs) =
      let split = prepended-cons (parse_test_case n c) (parse_all es) tc tcs in
      let first = parse_test_case_iff n c tc in
      let others = parse_all_iff es tcs in
      (
        (λ h. (first.0 (split.0 h).0, others.0 (split.0 h).1)),
        (λ (f, o). split.1 (first.1 f, others.1 o)),
      )

  parsed_specs_iff :
      (r : Result (Dict String)) (tcs : List TestCase)
      → (parsed_specs r ≡ ok tcs) ↔ ((m : Dict String) × (r ≡ ok m) × AreDecoded (order m) tcs)
  unfolding parsed_specs
  parsed_specs_iff (ok m) tcs = (
    (λ h. (m, refl, (parse_all_iff (order m) tcs).0 h)),
    (λ (n, e, d). ground (arith, (parse_all_iff (order n) tcs).1 d, ap parsed_specs e)),
  )
  parsed_specs_iff (err e) tcs = ground arith

  -- `testCases` succeeds exactly if the specs can be read and every one can be decoded: its test
  -- cases are then the decoded ones, in the order of the map, each with the name of its file.
  pub test_cases_iff :
      (dir : Result (List Entry)) (tcs : List TestCase)
      → (test_cases dir ≡ ok tcs)
        ↔ ((m : Dict String) × (read_specs dir ≡ ok m) × AreDecoded (order m) tcs)
  unfolding test_cases
  test_cases_iff dir tcs = parsed_specs_iff (read_specs dir) tcs
