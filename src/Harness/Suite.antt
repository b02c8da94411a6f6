-- ===== src/Harness/Suite.antt =====
-- cmd/pucora-integration/main.go on tests/integration.go: the command with the test cases that it
-- reads and the checks that it makes.
use pucora_ce.Base.{String, List, [], ◌∷◌, ◌≡◌, ◌≢◌, refl, ◌↔◌, Option, none, arith, All}
use pucora_ce.Base.Dict.{Dict}
use pucora_ce.Base.Result.{Result, ok, err}
use pucora_ce.Harness.Response.{
  Codecs, Message, Response, Assertion, assert_response, passes, read_failed, wrong, panics,
}
use pucora_ce.Harness.Check.{
  TestCase, Http, Request, Checked, accepted, failed, compared, check, new_request, IsAnswered,
  check-accepted_iff,
}
use pucora_ce.Harness.Check as Check
use pucora_ce.Harness.Specs.{Entry, read_specs}
use pucora_ce.Harness.Cases.{test_cases, AreDecoded, test_cases_iff}
use pucora_ce.Harness.Runner.{idle, new_integration}
use pucora_ce.Harness.Main.{Verdict, passed, crashed, Exit, main, AllPass, main-succeeds_iff}
use pucora_ce.Harness.Main as Main

-- The error of a check as text, with the messages joined by `join`.
unfoldable pub verdict_of : (List Message → String) → Checked → Verdict
verdict_of join accepted = passed
verdict_of join (failed e) = Main.wrong e
verdict_of join (compared passes) = passed
verdict_of join (compared (read_failed e)) = Main.wrong e
verdict_of join (compared (wrong ms)) = Main.wrong (join ms)
verdict_of join (compared panics) = crashed

module _ (C : Codecs) (H : Http C) (join : List Message → String)
    (decode : String → Result TestCase) (order : Dict String → Dict String) where
  -- On the folder of the specs and the errors of starting the gateway and of waiting for it.
  unfoldable pub suite : Result (List Entry) → Option String → Option String → Exit
  suite dir start waited =
      main (λ tc. tc.name) (λ tc. verdict_of join (check C H tc))
        (new_integration start (test_cases decode order dir) waited idle)

  -- The test case is sent, and the answer is the one that it asks for.
  abbrev pub IsPassing : TestCase → Type 0
  IsPassing tc =
      (req : Request) × (new_request C H tc.input ≡ ok req) × IsAnswered C H tc (H.send req)

  assertion-compared : (a : Assertion) → Check.assertion C H a ≢ compared passes
  unfolding Check.assertion
  assertion-compared passes = ground arith
  assertion-compared (read_failed e) = ground arith
  assertion-compared (wrong ms) = ground arith
  assertion-compared panics = ground arith

  answered-compared :
      (tc : TestCase) (o : Result (Response C)) → Check.answered C H tc o ≢ compared passes
  unfolding Check.answered
  answered-compared tc (err e) = ground arith
  answered-compared tc (ok resp) = assertion-compared (assert_response C resp tc.output)

  sent-compared : (tc : TestCase) (o : Result Request) → Check.sent C H tc o ≢ compared passes
  unfolding Check.sent
  sent-compared tc (err e) = ground arith
  sent-compared tc (ok req) = answered-compared tc (H.send req)

  check-compared : (tc : TestCase) → check C H tc ≢ compared passes
  unfolding check
  check-compared tc = sent-compared tc (new_request C H tc.input)

  verdict_of_iff :
      (c : Checked) → c ≢ compared passes → (verdict_of join c ≡ passed) ↔ (c ≡ accepted)
  unfolding verdict_of
  verdict_of_iff accepted n = ground arith
  verdict_of_iff (failed e) n = ground arith
  verdict_of_iff (compared passes) n = absurd (n refl)
  verdict_of_iff (compared (read_failed e)) n = ground arith
  verdict_of_iff (compared (wrong ms)) n = ground arith
  verdict_of_iff (compared panics) n = ground arith

  verdict_of-passed_iff : (tc : TestCase) → (verdict_of join (check C H tc) ≡ passed) ↔ IsPassing tc
  verdict_of-passed_iff tc =
      let (to, from) = verdict_of_iff (check C H tc) (check-compared tc) in
      let (into, out) = check-accepted_iff C H tc in ((λ h. into (to h)), (λ p. from (out p)))

  AllPassing_iff :
      (tcs : List TestCase)
      → All (λ tc. verdict_of join (check C H tc) ≡ passed) tcs ↔ All IsPassing tcs
  AllPassing_iff [] = ((λ h. h), (λ h. h))
  AllPassing_iff (tc ∷ tcs) =
      let (to, from) = verdict_of-passed_iff tc in
      let (into, out) = AllPassing_iff tcs in
      ((λ (h, hs). (to h, into hs)), (λ (h, hs). (from h, out hs)))

  abbrev pub AreAccepted : Result (List TestCase) → Type 0
  AreAccepted r = AllPass (λ tc. tc.name) (λ tc. verdict_of join (check C H tc)) r

  AreAccepted-iff :
      (r : Result (List TestCase))
      → AreAccepted r ↔ ((tcs : List TestCase) × (r ≡ ok tcs) × All IsPassing tcs)
  AreAccepted-iff (err e) = ((λ h. absurd h), (λ (tcs, e, h). ground (arith, e)))
  AreAccepted-iff (ok tcs) = (
    (λ h. (tcs, refl, (AllPassing_iff tcs).0 h)),
    (λ (ts, e, h). let same : tcs ≡ ts = ground (arith, e) in (AllPassing_iff tcs).1 (rw same h)),
  )

  -- The command exits with 0 exactly when the gateway starts, the wait for the servers succeeds, the
  -- specs are read and decoded, and the answer to the request of every test case is the one it asks
  -- for.
  pub suite-succeeds_iff :
      (dir : Result (List Entry)) (start waited : Option String)
      → ((suite dir start waited).status ≡ 0) ↔ (
          (start ≡ none)
          × (waited ≡ none)
          × (m : Dict String) × (tcs : List TestCase) × (read_specs dir ≡ ok m)
          × AreDecoded decode order (order m) tcs
          × All IsPassing tcs)
  unfolding suite
  suite-succeeds_iff dir start waited =
      let (to, from) =
        main-succeeds_iff (λ tc. tc.name) (λ tc. verdict_of join (check C H tc)) start
          (test_cases decode order dir) waited in
      let (into, out) = AreAccepted-iff (test_cases decode order dir) in
      (
        (λ h.
            let (s, w, a) = to h in
            let (tcs, e, p) = into a in
            let (m, r, d) = (test_cases_iff decode order dir tcs).0 e in (s, w, m, tcs, r, d, p)),
        (λ (s, w, m, tcs, r, d, p).
            from (s, w, out (tcs, (test_cases_iff decode order dir tcs).1 (m, r, d), p))),
      )
