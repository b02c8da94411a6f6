-- ===== src/Harness/Check.antt =====
-- tests/integration.go: `newRequest` and `Runner.Check`.
use pucora_ce.Base.{String, not, List, [], ◌∷◌, ◌++◌, ◌≡◌, refl, ◌↔◌}
use pucora_ce.Base.{
  Option, none, some, sym, ap, ◌∙◌, append-nil, append_assoc, Bool-cases, inl, inr, str_eq, eq_iff,
  arith, if◌then◌else◌,
}
use pucora_ce.Base.Dict.{Dict, lookup, insert, lookup-insert}
use pucora_ce.Base.Json.{Json, null, str}
use pucora_ce.Base.Result.{Result, ok, err}
use pucora_ce.Harness.Response.{Output, Codecs, Response, Assertion, passes, assert_response}
use pucora_ce.Harness.Assert.{Matches, assert_response-passes_iff}

-- `Input`. The entries of the header stand in the order in which the runtime yields them.
pub record Input : Type 0 where
  pub url : String
  pub method : String
  pub header : Dict String
  pub body : Json

-- `TestCase`, without `Next`, which nothing reads.
pub record TestCase : Type 0 where
  pub name : String
  pub error : String
  pub input : Input
  pub output : Output

-- `http.Request`
pub record Request : Type 0 where
  pub url : String
  pub method : String
  pub host : String
  pub header : Dict (List String)
  pub body : Option String

-- nil, an error of the request or the client, or what the comparison of the response came to.
pub data Checked : Type 0 where
  accepted : Checked
  failed : String → Checked
  compared : Assertion → Checked

-- The client: `http.NewRequest` on a method and a URL gives the host or an error, `json.Marshal` a
-- text or an error, and `Client.Do` a response or an error.
pub record Http (C : Codecs) : Type 0 where
  pub parse_request : String → String → Result String
  pub marshal : Json → Result String
  pub send : Request → Result (Response C)

module _ (C : Codecs) (H : Http C) where
  marshalled : Result String → String
  marshalled (ok b) = b
  marshalled (err e) = ""

  request_body : Json → Option String
  unfolding marshalled
  request_body null = none
  request_body (str s) = some s
  request_body v = some (marshalled (H.marshal v))

  with_host : Option String → Request → Request
  with_host none r = r
  with_host (some host) r = record r { host = host }

  abbrev pub values : Option (List String) → List String
  values none = []
  values (some vs) = vs

  -- `Header.Add`
  add : String → String → Dict (List String) → Dict (List String)
  unfolding values
  add k v m = let key = C.canonical_key k in insert key (values (lookup key m) ++ (v ∷ [])) m

  unfoldable pub add_all : Dict String → Dict (List String) → Dict (List String)
  unfolding add
  add_all [] m = m
  add_all ((k, v) ∷ rest) m = add_all rest (add k v m)

  -- The request, once the method and the URL are parsed.
  unfoldable pub built : Input → String → Request
  unfolding with_host request_body
  built input host = with_host (lookup "Host" input.header) (record {
    url = input.url;
    method = if str_eq input.method "" then "GET" else input.method;
    host = host;
    header = add_all input.header [];
    body = request_body input.body;
  })

  unfoldable pub parsed : Input → Result String → Result Request
  parsed input (ok host) = ok (built input host)
  parsed input (err e) = err e

  unfoldable pub new_request : Input → Result Request
  new_request input = parsed input (H.parse_request input.method input.url)

  unfoldable pub assertion : Assertion → Checked
  assertion passes = accepted
  assertion a = compared a

  unfoldable pub answered : TestCase → Result (Response C) → Checked
  unfolding assertion
  answered tc (err e) = if not (str_eq e tc.error) then failed e else accepted
  answered tc (ok resp) = assertion (assert_response C resp tc.output)

  unfoldable pub sent : TestCase → Result Request → Checked
  unfolding answered
  sent tc (err e) = failed e
  sent tc (ok req) = answered tc (H.send req)

  unfoldable pub check : TestCase → Checked
  unfolding sent
  check tc = sent tc (new_request tc.input)

  -- What makes a test case pass, once its request is there.
  abbrev pub IsAnswered : TestCase → Result (Response C) → Type 0
  IsAnswered tc (err e) = e ≡ tc.error
  IsAnswered tc (ok resp) = Matches C resp tc.output

  answered_iff :
      (tc : TestCase) (o : Result (Response C)) → (answered tc o ≡ accepted) ↔ IsAnswered tc o
  unfolding answered
  answered_iff tc (err e) = ground (arith, eq_iff e tc.error)
  answered_iff tc (ok resp) = ground (arith, assert_response-passes_iff C resp tc.output)

  sent_iff :
      (tc : TestCase) (o : Result Request)
      → (sent tc o ≡ accepted) ↔ ((req : Request) × (o ≡ ok req) × IsAnswered tc (H.send req))
  unfolding sent
  sent_iff tc (ok req) = (
    (λ h. (req, refl, (answered_iff tc (H.send req)).0 h)),
    (λ (r, e, a). ground (arith, (answered_iff tc (H.send r)).1 a)),
  )
  sent_iff tc (err e) = ground arith

  -- A test case passes exactly when its request can be built and the client either answers it with
  -- the error that the test case names, or with a response that matches the output of the test
  -- case, whatever error it names.
  pub check-accepted_iff :
      (tc : TestCase)
      → (check tc ≡ accepted)
        ↔ ((req : Request) × (new_request tc.input ≡ ok req) × IsAnswered tc (H.send req))
  unfolding check
  check-accepted_iff tc = sent_iff tc (new_request tc.input)

  -- The values given for a header, in the order of the entries.
  abbrev pub given : String → Dict String → List String
  given key [] = []
  given key ((k, v) ∷ rest) =
      let more = given key rest in if str_eq (C.canonical_key k) key then v ∷ more else more

  add-values :
      (key k v : String) (m : Dict (List String))
      → values (lookup key (add k v m)) ≡ (
          if str_eq (C.canonical_key k) key
          then values (lookup key m) ++ (v ∷ [])
          else values (lookup key m))
  unfolding add
  add-values key k v m = ground (
    arith,
    eq_iff (C.canonical_key k) key,
    lookup-insert (C.canonical_key k) key (values (lookup (C.canonical_key k) m) ++ (v ∷ [])) m,
  )

  add_all-values :
      (key : String) (hs : Dict String) (m : Dict (List String))
      → values (lookup key (add_all hs m)) ≡ values (lookup key m) ++ given key hs
  unfolding add_all
  add_all-values key [] m = sym (append-nil _)
  add_all-values key ((k, v) ∷ rest) m =
      add_all-values key rest (add k v m)
      ∙ rw (add-values key k v m) (elim (Bool-cases (str_eq (C.canonical_key k) key)) [
        | inl same ↦ rw same (append_assoc (values (lookup key m)) (v ∷ []) (given key rest))
        | inr other ↦ rw other refl
      ])

  built-header :
      (input : Input) (host : String) → (built input host).header ≡ add_all input.header []
  unfolding built
  built-header input host = ground arith

  parsed-header :
      (input : Input) (o : Result String) (req : Request)
      → parsed input o ≡ ok req
      → req.header ≡ add_all input.header []
  unfolding parsed
  parsed-header input (ok host) req h = ground (arith, built-header input host)
  parsed-header input (err e) req h = ground arith

  -- A request that is built has, under each name in its canonical form, the values that the test
  -- case gives for that name under whatever spelling, in their order.
  pub new_request-header :
      (input : Input) (req : Request) (key : String)
      → new_request input ≡ ok req
      → values (lookup key req.header) ≡ given key input.header
  unfolding new_request lookup
  new_request-header input req key h =
      ap (λ m. values (lookup key m))
        (parsed-header input (H.parse_request input.method input.url) req h)
      ∙ add_all-values key input.header []
