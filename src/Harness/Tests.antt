-- ===== src/Harness/Tests.antt =====
-- A gateway that answers at the second request, a response of it, and requests to the mocked
-- backend.
use pucora_ce.Base.{ℕ, ◌*◌, ◌-◌, ◌≤◌, ◌<◌, String, ◌<>◌, Bool, true, false, List, [], ◌∷◌}
use pucora_ce.Base.{Option, none, some, ◌≡◌, ◌≢◌, ◌↔◌, ◌⊎◌, refl, inl, inr, str_eq, arith}
use pucora_ce.Base.{if◌then◌else◌, eq_iff}
use pucora_ce.Base.Dict.{lookup}
use pucora_ce.Base.Json.{num}
use pucora_ce.Base.Result.{Result, ok, err}
use pucora_ce.Harness.Ready.{Unready, responded, second, wait_for_ready, wait_for_ready_total}
use pucora_ce.Harness.Runner.{
  World, Runner, gateway, mocked_backend, close, idle, new_integration, close-new_integration,
}
use pucora_ce.Harness.Response.{content, Output, Response, assert_response, passes, panics}
use pucora_ce.Harness.Assert.{Matches, assert_response-passes_iff}
use pucora_ce.Harness.Environ.{split_commas, Occurs, get_environ, get_environ_iff}
use pucora_ce.Harness.Mock.{
  Request, Atoi, natural, unreadable, moved, bad_request, symmetric_jwk_endpoint, not_found,
  panicked, first_or_empty, serve, serve_forwarded, redirect_endpoint, redirect_endpoint_iff,
}
use pucora_ce.Harness.Main.{Verdict, passed}
use pucora_ce.Harness.Panics.{assert_response-panics_iff}
use pucora_ce.Harness.Samples.{answers, codecs, expected}

wait_for_ready_total_example :
    (o : Option Unready) × (n : ℕ) × (wait_for_ready answers
        (λ n. 5)
        "http://localhost:8080/__health"
        3000
        0
      ≡ some (o, n))
    × (1 ≤ n)
    × (n * second < 5000)
    × ((o ≡ none) ↔ (answers (n - 1) ≡ responded 200))
wait_for_ready_total_example =
    wait_for_ready_total answers (λ n. 5) "http://localhost:8080/__health" 3000 0

abbrev both : World
both = record { process = true; backend = true }

abbrev runner : Runner
runner = record { close_funcs = gateway ∷ mocked_backend ∷ []; closed = false }

abbrev cases : List String
cases = "echo" ∷ "xml" ∷ []

close-new_integration_example :
    (both ≡ record { process = true; backend = true })
    × ((close runner both).1 ≡ idle)
    × (close (close runner both).0 both ≡ ((close runner both).0, both))
unfolding new_integration
close-new_integration_example =
    close-new_integration none (ok cases) none runner cases both both refl

abbrev no_cases : Result (List String)
no_cases = err "no specs"

abbrev nothing : Option String
nothing = none

abbrev response : Response codecs
response = record {
  status_code = 200;
  header = ("Content-Type", "application/json" ∷ []) ∷ [];
  body = some "42";
}

abbrev answer : String
answer = "42"

non_empty : answer ≢ ""
non_empty e = ground (arith, (eq_iff answer "").1 e)

response-Matches : Matches codecs response expected
unfolding lookup content
response-Matches = record {
  status = refl;
  headers = (inl refl, (inr (refl, ([], refl)), tt));
  body = record {
    non_empty = non_empty;
    text = "schema";
    marshalled = refl;
    doc = num "42";
    loaded = refl;
    compiled = "compiled";
    compiles = refl;
    value = num "42";
    decoded = refl;
    accepted = refl;
  };
}

assert_response-passes_iff_example : assert_response codecs response expected ≡ passes
assert_response-passes_iff_example =
    (assert_response-passes_iff codecs response expected).1 response-Matches

abbrev compile : String → Option String
compile p = if str_eq p "[" then none else some p

abbrev matches : String → String → Bool
matches re v = if str_eq re "" then true else str_eq re v

get_environ_iff_example :
    Occurs compile matches "HOME=/" (get_environ compile matches "[,HOME=/" ("HOME=/" ∷ []))
unfolding split_commas
get_environ_iff_example =
    (get_environ_iff compile matches "[,HOME=/" ("HOME=/" ∷ []) "HOME=/").1
      (inr (inl refl, inr (inl ("HOME=/", refl, refl))))

abbrev atoi : String → Atoi
atoi s = if str_eq s "5" then natural 5 else unreadable "invalid syntax"

abbrev parse_ip : String → Option Bool
parse_ip s = if str_eq s "127.0.0.1" then some true else none

abbrev request : Request
request = record { path = "/xml"; query = []; header = []; body = "" }

unforwarded : parse_ip (first_or_empty (lookup "X-Forwarded-For" request.header)) ≢ some true
unfolding first_or_empty lookup
unforwarded = ground arith

serve_forwarded_example :
    (serve atoi parse_ip 5 request ≡ bad_request "invalid X-Forwarded-For")
    ⊎ ((serve atoi parse_ip 5 request ≡ not_found)
        ⊎ ((serve atoi parse_ip 5 request ≡ moved (request.path <> "/"))
            ⊎ ((serve atoi parse_ip 5 request ≡ symmetric_jwk_endpoint request)
                × (request.path ≡ "/jwk/symmetric"))))
serve_forwarded_example = serve_forwarded atoi parse_ip 5 request unforwarded

abbrev five : String
five = "5"

five_other : five ≢ "301"
five_other e = ground (arith, (eq_iff five "301").1 e)

redirect_endpoint_iff_example : redirect_endpoint atoi (some ("5" ∷ [])) ≡ panicked
redirect_endpoint_iff_example =
    (redirect_endpoint_iff atoi (some ("5" ∷ [])) 301).0.1
      (inr (inr (five, [], refl, five_other, inl (omega arith))))

abbrev no_error : String → Verdict
no_error tc = passed

abbrev bare : Output
bare = record expected { header = ("X-Gone", []) ∷ [] }

assert_response-panics_iff_example : assert_response codecs response bare ≡ panics
unfolding lookup
assert_response-panics_iff_example =
    (assert_response-panics_iff codecs response bare).1 (inl (refl, refl))
