-- ===== src/Harness/Trials.antt =====
-- Test cases that are read from a folder and tried on a gateway that closes the connection.
use pucora_ce.Base.{String, false, List, [], ◌∷◌}
use pucora_ce.Base.{none, some, ◌≡◌, refl, inr, str_eq}
use pucora_ce.Base.Dict.{Dict, lookup, insert}
use pucora_ce.Base.Json.{null}
use pucora_ce.Base.Result.{Result, ok, err}
use pucora_ce.Harness.Ready.{refused, wait_for_ready, poll, report, outcome, is_ready}
use pucora_ce.Harness.Response.{Message}
use pucora_ce.Harness.Check.{
  Input, TestCase, Http, accepted, parsed, check, check-accepted_iff, new_request,
  new_request-header, built, values,
}
use pucora_ce.Harness.Specs.{
  Entry, strip_json, kept, read_entries, read_specs, read_specs_lem, present,
}
use pucora_ce.Harness.Cases.{test_cases, test_cases_iff}
use pucora_ce.Harness.Config.{Flags, get_ready_url, get_ready_url_wait}
use pucora_ce.Harness.Samples.{answers, codecs, expected}
use pucora_ce.Harness.Session.{Machine, Tools, session, default_config, session-succeeds_iff}

abbrev http : Http codecs
http = record {
  parse_request = λ method url. ok "localhost";
  marshal = λ v. ok "{}";
  send = λ req. err "EOF";
}

abbrev input : Input
input = record {
  url = "http://localhost:8080/xml";
  method = "GET";
  header = ("Accept", "*/*") ∷ ("Host", "pucora") ∷ [];
  body = null;
}

abbrev closed_connection : TestCase
closed_connection = record { name = "closed"; error = "EOF"; input = input; output = expected }

check-accepted_iff_example : check codecs http closed_connection ≡ accepted
unfolding new_request parsed
check-accepted_iff_example =
    (check-accepted_iff codecs http closed_connection).1
      (built codecs http input "localhost", refl, refl)

new_request-header_example :
    values codecs http (lookup "Accept" (built codecs http input "localhost").header) ≡ "*/*" ∷ []
unfolding new_request parsed
new_request-header_example =
    new_request-header codecs http input (built codecs http input "localhost") "Accept" refl

abbrev folder : List Entry
folder =
    record { name = "xml.json"; content = ok "<xml>" }
    ∷ record { name = "notes.txt"; content = err "unreadable" }
    ∷ []

abbrev specs : Dict String
specs = ("xml", "<xml>") ∷ []

read_specs_lem_example : present (lookup "xml" specs) ≡ some (ok "<xml>")
unfolding read_specs read_entries kept strip_json insert
read_specs_lem_example = read_specs_lem folder specs "xml" refl

abbrev decode : String → Result TestCase
decode s = ok closed_connection

test_cases_iff_example :
    test_cases decode (λ m. m) (ok folder) ≡ ok (record closed_connection { name = "xml" } ∷ [])
unfolding read_specs read_entries kept strip_json insert
test_cases_iff_example =
    (test_cases_iff decode (λ m. m) (ok folder) (record closed_connection { name = "xml" } ∷ [])).1
      (specs, refl, ((closed_connection, refl, refl), tt))

abbrev joined : List Message → String
joined ms = "the response is not as expected"

abbrev tools : Tools codecs
tools = record {
  Client = String;
  Regexp = String;
  http = λ c. http;
  compile = λ p. some p;
  matches = λ re v. str_eq re v;
  decode = decode;
  order = λ m. m;
  join = joined;
  unready = λ u. "the gateway is not ready";
}

abbrev flags : Flags String
flags = record {
  bin_path = ".././pucora";
  cfg_path = "fixtures/pucora.json";
  specs_path = "./fixtures/specs";
  environ_patterns = "";
  backend_port = 8081;
  delay = 200;
  not_follow_redirects = false;
  startup_wait = 1500;
  ready_url = "http://localhost:8080/__health";
  ready_url_wait = 1500;
  default_client = "default";
  use_last_response_client = "last response";
}

abbrev machine : Machine
machine = record {
  environ = "HOME=/" ∷ [];
  start = λ c. none;
  read_dir = λ path. ok folder;
  reply = answers;
  latency = λ n. 5;
  now = 0;
}

session-succeeds_iff_example : (session codecs tools flags default_config machine).status ≡ 0
unfolding new_request parsed read_specs read_entries kept strip_json insert wait_for_ready poll
    report outcome is_ready get_ready_url get_ready_url_wait
session-succeeds_iff_example = (session-succeeds_iff codecs tools flags default_config machine).1 (
  refl,
  inr (3, refl),
  specs,
  record closed_connection { name = "xml" } ∷ [],
  refl,
  ((closed_connection, refl, refl), tt),
  ((built codecs http input "localhost", refl, refl), tt),
)

abbrev deaf_machine : Machine
deaf_machine = record machine { reply = λ n. refused "connection refused" }
