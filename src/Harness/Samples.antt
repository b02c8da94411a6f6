-- ===== src/Harness/Samples.antt =====
-- What the tests of the harness share: a gateway that answers at the second request, libraries that
-- know one text, and an output that is asked for.
use pucora_ce.Base.{ℕ, String, [], ◌∷◌}
use pucora_ce.Base.{none, some, ltb}
use pucora_ce.Base.{if◌then◌else◌}
use pucora_ce.Base.Json.{null, str, num, end, field}
use pucora_ce.Base.Result.{ok}
use pucora_ce.Harness.Ready.{Reply, responded, refused}
use pucora_ce.Harness.Response.{Output, Codecs}

abbrev pub answers : ℕ → Reply
answers n = if ltb n 2 then refused "connection refused" else responded 200

abbrev pub codecs : Codecs
codecs = record {
  Stream = String;
  Schema = String;
  canonical_key = λ k. k;
  new_gzip_reader = λ s. (s, none);
  read_all = λ s. ok s;
  unmarshal = λ s. some (num "42");
  marshal = λ fs. ok "schema";
  unmarshal_schema = λ s. ok (num "42");
  compile = λ doc. ok "compiled";
  validate = λ s v. none;
}

abbrev pub expected : Output
expected = record {
  status_code = 200;
  body = null;
  header = ("Content-Type", "application/json" ∷ []) ∷ ("X-Cache", "" ∷ []) ∷ [];
  schema = field "type" (str "number") end;
}
