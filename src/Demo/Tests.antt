-- ===== src/Demo/Tests.antt =====
-- A message that is stored and asked for, a document with a country, and clients of the echo.
use Prim.Native.Char.{Char, code}
use pucora_ce.Base.{ℕ, ◌≤◌, ◌<◌, String, ◌<>◌, true, false, List, [], ◌∷◌, ◌++◌, ◌≡◌, ◌≢◌}
use pucora_ce.Base.{refl, ◌⊎◌, inl, inr, Option, none, some, eq_iff, arith, map}
use pucora_ce.Base.{if◌then◌else◌, ◌==◌}
use pucora_ce.Base.Cut.{IsNotBefore, trim, trim_left, trim_right, strip_prefix, strip_prefix_iff}
use pucora_ce.Base.Json.{end}
use pucora_ce.Base.Result.{Result, ok, err}
use pucora_ce.Demo.Webhook as Webhook
use pucora_ce.Demo.Webhook.{
  System, Op, Reach, here, next, pick, assign, decoded, lock_store, store, unlock_store, asked,
  lock_load, present, encode, unlock_load, Step, ingest, last, put, get, encoded, Until,
}
use pucora_ce.Demo.Webhook.Spec.{latest, IsAtomic, Occurs}
use pucora_ce.Demo.Webhook.Refines.{Reach-IsAtomic}
use pucora_ce.Demo.Webhook.Progress.{HaveReturned, moves, Reach-ends}
use pucora_ce.Demo.Soap.{open_tag, close_tag, extract_country_code, extract_country_code_lem}
use pucora_ce.Demo.Smoke as Smoke
use pucora_ce.Demo.Smoke.{Flags, Client, header_of, invalid, main-eq-zero_iff}
use pucora_ce.Demo.Websocket.{
  Envelope, Codec, IsFaithful, wrote, closed, handshake_message, handshake_ok, multiplex_handler,
}
use pucora_ce.Demo.Echo.{incoming, AreEchoes, multiplex_handler-echo}
use pucora_ce.Demo.Streaming.{
  started, numbered, sse_handler, env_int, env_duration, natural, sse_handler-numbered,
}

abbrev requests : ℕ → Webhook.Request
requests i = if i == 0 then ingest (ok (some end)) else last

-- The message is stored, and the other handler is about to encode it.
abbrev reached : (h : List Op) × (s : System) × Reach 2 requests h s
unfolding assign
reached = (
  _,
  _,
  next
      (next
        (next
          (next
            (next
              (next
                (next (next here (pick 0 (omega arith) (decoded (some end))))
                  (pick 0 (omega arith) (lock_store (some end) refl)))
                (pick 0 (omega arith) (store (some end))))
              (pick 0 (omega arith) unlock_store))
            (pick 1 (omega arith) asked))
          (pick 1 (omega arith) (lock_load refl)))
        (pick 1 (omega arith) (present end refl)))
      (pick 1 (omega arith) (encode (some end) refl)),
)

Reach-IsAtomic_example :
    IsAtomic reached.0
    × (latest reached.0 ≡ reached.1.mem.last_msg)
    × Occurs (get (encoded (some end))) reached.0
unfolding assign
Reach-IsAtomic_example = Reach-IsAtomic reached.2 1 (encoded (some end)) refl

Reach-ends_example :
    (moves reached.2 ≤ 10)
    × (HaveReturned 2 reached.1.pc ⊎ ((l : Option Op) × (t : System) × Step 2 reached.1 l t))
Reach-ends_example = Reach-ends reached.2

not_prefix : (p s : String) → strip_prefix p s ≡ none → ¬ ((r : String) × (s ≡ p <> r))
not_prefix p s e (r, f) = ground (arith, e, (strip_prefix_iff p s r).1 f)

abbrev rest : String
rest = "</sCountryISOCode></Body>"

es-IsNotBefore : IsNotBefore close_tag " ES" rest
unfolding strip_prefix
es-IsNotBefore = (not_prefix _ _ refl, (not_prefix _ _ refl, (not_prefix _ _ refl, tt)))

extract_country_code_lem_example :
    extract_country_code ("" <> (open_tag <> (" ES" <> (close_tag <> "</Body>")))) ≡ "ES"
unfolding trim trim_left trim_right
extract_country_code_lem_example = extract_country_code_lem "" " ES" "</Body>" tt es-IsNotBefore

abbrev flags : Flags
flags = record {
  url = "ws://localhost:8080/echo";
  message = "ping";
  header = "";
  expect = "";
  expect_prefix = "";
}

url_given : flags.url ≢ ""
url_given e = ground (arith, (eq_iff flags.url "").1 e)

header_valid : header_of flags.header ≢ invalid
unfolding header_of
header_valid = ground arith

sse_handler-numbered_example :
    let count = env_int (λ v. natural 2) (λ k. "2") "SSE_EVENT_COUNT" 6 in
    let interval = env_duration (λ v. none) (λ k. "2") "SSE_INTERVAL" 500000000 in
    (0 < count)
    × (k : ℕ) × (sse_handler (λ n. n == 1) (λ v. natural 2) (λ v. none) (λ k. "2") true
        ≡ started ∷ numbered (λ n. n == 1) interval k 0)
    × (k ≤ count)
    × ((j : ℕ) → j < k → (j == 1) ≡ false)
    × ((k ≡ count) ⊎ ((k == 1) ≡ true))
sse_handler-numbered_example =
    sse_handler-numbered (λ n. n == 1) (λ v. natural 2) (λ v. none) (λ k. "2")

-- A codec of envelopes without sessions: the characters of the URL, each after an `a`, then a `b` and
-- the body.
written : String → String → String
written String.[] body = String.◌∷◌ "b" body
written (String.◌∷◌ c url) body = String.◌∷◌ "a" (String.◌∷◌ c (written url body))

in_url : Char → Envelope Unit → Envelope Unit
in_url c e = record e { url = String.◌∷◌ c e.url }

read : String → Result (Envelope Unit)
unfolding in_url
read String.[] = err "short"
read (String.◌∷◌ k String.[]) =
    if code k == b'b' then ok (record { url = ""; session = tt; body = "" }) else err "short"
read (String.◌∷◌ k (String.◌∷◌ c s)) =
    let rest = read s in
    if code k == b'b'
    then ok (record { url = ""; session = tt; body = String.◌∷◌ c s })
    else elim rest [ ok e ↦ ok (in_url c e) | err x ↦ err x ]

read-written :
    (url body : String)
    → read (written url body) ≡ ok (record { url = url; session = tt; body = body })
unfolding read written
read-written String.[] String.[] = refl
read-written String.[] (String.◌∷◌ c s) = refl
read-written (String.◌∷◌ c url) body = ground (arith, read-written url body)

abbrev codec : Codec
codec = record {
  Session = Unit;
  unmarshal = read;
  marshal = λ e. ok (written e.url e.body);
  decode = λ s. ok s;
  encode = λ s. s;
}

codec-IsFaithful : IsFaithful codec
codec-IsFaithful = record {
  envelope = λ e. (written e.url e.body, refl, read-written e.url e.body);
  text = λ s. refl;
}

abbrev greeting : Envelope Unit
greeting = record { url = "/room"; session = tt; body = " hello" }

not_quiet : (trim greeting.body ≡ "") → ⊥
unfolding trim trim_left trim_right
not_quiet e = ground (arith, (eq_iff (trim greeting.body) "").1 e)

multiplex_handler-echo_example :
    (rs : List String) × (multiplex_handler codec
        (λ n. false)
        true
        none
        (ok handshake_message
          ∷ incoming codec codec-IsFaithful (λ n. false) (λ n. refl) (greeting ∷ []))
      ≡ wrote handshake_ok ∷ (map wrote rs ++ (closed ∷ [])))
    × AreEchoes codec codec-IsFaithful (greeting ∷ []) rs
multiplex_handler-echo_example =
    multiplex_handler-echo codec codec-IsFaithful (λ n. false) (λ n. refl) (greeting ∷ [])
      (not_quiet, tt)

abbrev client : Client
client = record { dial = λ url header. none; write = λ m. none; read = ok "ping" }

main-eq-zero_iff_example : Smoke.main flags client ≡ 0
main-eq-zero_iff_example = (main-eq-zero_iff flags client).1 (
  url_given,
  header_valid,
  refl,
  (refl, ("ping", refl, record { whole = inl refl; start = inl refl; echo = inr (inr refl) })),
)
