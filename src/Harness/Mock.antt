-- ===== src/Harness/Mock.antt =====
-- tests/integration.go: the mocked backend (`mockBackendBuilder` and its handlers).
use pucora_ce.Base.{
  ℕ, zero, suc, String, ◌<>◌, Bool, true, false, not, ◌||◌, List, [], ◌∷◌, ◌≡◌, ◌≢◌,
}
use pucora_ce.Base.{◌⊎◌, ◌↔◌, Option, none, some, str_eq, eq_iff, starts_with, arith}
use pucora_ce.Base.{if◌then◌else◌, ltb, ◌≤◌, ◌<◌}
use pucora_ce.Base.{refl, inl, inr}
use pucora_ce.Base.Dict.{Dict, lookup}

-- A request, with its parsed query and its body as read.
pub record Request : Type 0 where
  pub path : String
  pub query : Dict (List String)
  pub header : Dict (List String)
  pub body : String

-- The JSON object of `echoEndpoint`.
pub record Echo : Type 0 where
  pub path : String
  pub query : Dict (List String)
  pub headers : Dict (List String)
  pub foo : ℕ
  pub body : Option String

pub data Reply : Type 0 where
  -- The header that the handler sets, and the JSON object that it encodes.
  echoed : Dict (List String) → Echo → Reply
  -- The path and the numbers of the objects of the array.
  collected : Dict (List String) → String → List ℕ → Reply
  document : Dict (List String) → String → Reply
  -- The reply comes after so many nanoseconds.
  after : ℕ → Reply → Reply
  -- The redirection of the mux to the path with a slash at its end.
  moved : String → Reply
  not_found : Reply
  -- `http.Redirect` to the path, with the query as it was, with a code that `WriteHeader` takes.
  redirected : String → ℕ → Reply
  bad_request : String → Reply
  -- The handler panics; the server closes the connection.
  panicked : Reply

-- `Values.Get` and `Header.Get`: the first value, or the empty text.
unfoldable pub first_or_empty : Option (List String) → String
first_or_empty (some (v ∷ vs)) = v
first_or_empty _ = ""

-- `Header.Del`
unfoldable pub del : String → Dict (List String) → Dict (List String)
del k [] = []
del k ((j, v) ∷ m) = let rest = del k m in if str_eq j k then rest else (j, v) ∷ rest

abbrev json_header : Dict (List String)
json_header = ("Content-Type", "application/json" ∷ []) ∷ []

abbrev echo_header : Dict (List String)
echo_header =
    ("Content-Type", "application/json" ∷ [])
    ∷ ("Set-Cookie", "test1=test1" ∷ "test2=test2" ∷ [])
    ∷ []

unfoldable pub echo_endpoint : Request → Reply
unfolding del first_or_empty
echo_endpoint r = echoed echo_header (record {
  path = r.path;
  query = r.query;
  headers = del "X-Forwarded-For" r.header;
  foo = 42;
  body = if str_eq (first_or_empty (lookup "dump_body" r.query)) "1" then some r.body else none;
})

-- `for i := 0; i < 10; i++`, from `i` with `n` rounds left.
count_from : ℕ → ℕ → List ℕ
count_from i zero = []
count_from i (suc n) = i ∷ count_from (suc i) n

pub collection_endpoint : Request → Reply
unfolding count_from
collection_endpoint r = collected json_header r.path (count_from 0 10)

xml_text : String
xml_text =
    "<?xml version=\"1.0\" encoding=\"UTF-8\"?>\n" <> "<user type=\"admin\">\n"
    <> "  <name>Elliot</name>\n" <> "  <social>\n"
    <> "    <facebook>https://facebook.com</facebook>\n"
    <> "    <twitter>https://twitter.com</twitter>\n"
    <> "    <youtube>https://youtube.com</youtube>\n" <> "  </social>\n" <> "</user>"

xml_endpoint : Request → Reply
unfolding xml_text
xml_endpoint r = document (("Content-Type", "application/xml; charset=utf-8" ∷ []) ∷ []) xml_text

jwk_text : String
jwk_text =
    "{\n" <> "  \"keys\": [\n" <> "    {\n" <> "      \"kty\": \"oct\",\n"
    <> "      \"alg\": \"A128KW\",\n" <> "      \"k\": \"GawgguFyGrWKav7AX4VKUg\",\n"
    <> "      \"kid\": \"sim1\"\n" <> "    },\n" <> "    {\n" <> "      \"kty\": \"oct\",\n"
    <> "      \"k\": \"AyM1SysPpbyDfgZld3umj1qzKObwVMkoqQ-EstJQLr_T-1qS0gZH75aKtMN3Yj0iPS4hcgUuTwjAzZr1Z9CAow\",\n"
    <> "      \"kid\": \"sim2\",\n" <> "      \"alg\": \"HS256\"\n" <> "    }\n" <> "  ]\n" <> "}"

pub symmetric_jwk_endpoint : Request → Reply
unfolding jwk_text
symmetric_jwk_endpoint r = document json_header jwk_text

sse_events_endpoint : Request → Reply
sse_events_endpoint r =
    document (("Content-Type", "text/event-stream" ∷ []) ∷ ("Cache-Control", "no-cache" ∷ []) ∷ [])
      "data: {\"seq\":1,\"message\":\"event-1\"}\n\n"

-- `delayedEndpoint`, the wait on `time.After` as a part of the reply.
delayed_endpoint : ℕ → (Request → Reply) → Request → Reply
delayed_endpoint d h r = after d (h r)

-- What `strconv.Atoi` reads: a number, the opposite of one, or an error.
pub data Atoi : Type 0 where
  natural negative : ℕ → Atoi
  unreadable : String → Atoi

module _ (atoi : String → Atoi) where
  -- `http.Redirect`: `WriteHeader` panics on a code that has not three digits.
  redirect : ℕ → Reply
  redirect code =
      if ltb code 100 || ltb 999 code then panicked else redirected "/param_forwarding/" code

  parsed_status : Atoi → Reply
  unfolding redirect
  parsed_status (natural code) = redirect code
  parsed_status (negative code) = panicked
  parsed_status (unreadable e) = bad_request e

  -- On `r.URL.Query()["status"]`: `status[0]` panics on a missing or an empty list.
  unfoldable pub redirect_endpoint : Option (List String) → Reply
  unfolding parsed_status redirect
  redirect_endpoint none = panicked
  redirect_endpoint (some []) = panicked
  redirect_endpoint (some (s ∷ rest)) =
      if not (str_eq s "301") then parsed_status (atoi s) else redirect 301

  -- Whether `net.ParseIP` reads an address, and if so whether it is one of the loop back.
  module _ (parse_ip : String → Option Bool) (delay : ℕ) where
    forwarded_from_loopback : Option Bool → Bool
    forwarded_from_loopback (some true) = true
    forwarded_from_loopback _ = false

    unfoldable pub check_x_forwarded_for : (Request → Reply) → Request → Reply
    unfolding forwarded_from_loopback first_or_empty
    check_x_forwarded_for h r =
        if not
          (forwarded_from_loopback (parse_ip (first_or_empty (lookup "X-Forwarded-For" r.header))))
        then bad_request "invalid X-Forwarded-For"
        else h r

    -- The paths of the patterns that end in a slash, without it.
    unfoldable pub lacks_slash : String → Bool
    lacks_slash path =
        str_eq path "/param_forwarding"
        || str_eq path "/collection"
        || str_eq path "/delayed"
        || str_eq path "/redirect"

    -- The handlers by their patterns, on a path in canonical form. A pattern that ends in a slash
    -- stands for all paths below it.
    pub serve : Request → Reply
    serve r =
        if starts_with r.path "/param_forwarding/"
        then check_x_forwarded_for echo_endpoint r
        else if str_eq r.path "/xml"
        then check_x_forwarded_for xml_endpoint r
        else if starts_with r.path "/collection/"
        then check_x_forwarded_for collection_endpoint r
        else if starts_with r.path "/delayed/"
        then check_x_forwarded_for (delayed_endpoint delay echo_endpoint) r
        else if starts_with r.path "/redirect/"
        then check_x_forwarded_for (λ q. redirect_endpoint (lookup "status" q.query)) r
        else if str_eq r.path "/jwk/symmetric"
        then symmetric_jwk_endpoint r
        else if str_eq r.path "/sse/events"
        then check_x_forwarded_for sse_events_endpoint r
        else if lacks_slash r.path
        then moved (r.path <> "/")
        else not_found

    refused :
        (handler : Request → Reply) (r : Request)
        → parse_ip (first_or_empty (lookup "X-Forwarded-For" r.header)) ≢ some true
        → check_x_forwarded_for handler r ≡ bad_request "invalid X-Forwarded-For"
    unfolding check_x_forwarded_for
    refused handler r h = ground arith

    -- A request whose X-Forwarded-For is no address of the loop back reaches no handler but the one
    -- of the keys: otherwise it is refused, or the mux has no handler for it, or sends it to the
    -- path with a slash.
    pub serve_forwarded :
        (r : Request)
        → parse_ip (first_or_empty (lookup "X-Forwarded-For" r.header)) ≢ some true
        → (serve r ≡ bad_request "invalid X-Forwarded-For")
          ⊎ ((serve r ≡ not_found)
              ⊎ ((serve r ≡ moved (r.path <> "/"))
                  ⊎ ((serve r ≡ symmetric_jwk_endpoint r) × (r.path ≡ "/jwk/symmetric"))))
    unfolding serve
    serve_forwarded r h = ground (
      arith,
      eq_iff r.path "/jwk/symmetric",
      refused echo_endpoint r h,
      refused (delayed_endpoint delay echo_endpoint) r h,
      refused xml_endpoint r h,
      refused collection_endpoint r h,
      refused (λ q. redirect_endpoint (lookup "status" q.query)) r h,
      refused sse_events_endpoint r h,
    )

  -- A number that is no status code of three digits.
  abbrev pub IsOutOfRange : Atoi → Type 0
  IsOutOfRange (natural code) = (code < 100) ⊎ (999 < code)
  IsOutOfRange (negative code) = Unit
  IsOutOfRange (unreadable e) = ⊥

  parsed_status-panicked : (o : Atoi) → (parsed_status o ≡ panicked) ↔ IsOutOfRange o
  unfolding parsed_status redirect
  parsed_status-panicked (natural code) = ground arith
  parsed_status-panicked (negative code) = ground arith
  parsed_status-panicked (unreadable e) = ground arith

  parsed_status-redirected :
      (o : Atoi) (code : ℕ)
      → (parsed_status o ≡ redirected "/param_forwarding/" code)
        ↔ ((o ≡ natural code) × (100 ≤ code) × (code ≤ 999))
  unfolding parsed_status redirect
  parsed_status-redirected (natural n) code = ground arith
  parsed_status-redirected (negative n) code = ground arith
  parsed_status-redirected (unreadable e) code = ground arith

  -- The redirection panics exactly when the query has no value for `status`, or the first one is not
  -- 301 and a number that has not three digits, as a code; it is made with a code exactly if the
  -- first value is 301 and so is the code, or it is another text, of that number, which has three
  -- digits.
  pub redirect_endpoint_iff :
      (status : Option (List String)) (code : ℕ)
      → ((redirect_endpoint status ≡ panicked) ↔ (
          (status ≡ none)
          ⊎ ((status ≡ some [])
              ⊎ ((s : String) × (rest : List String) × (status ≡ some (s ∷ rest))
                  × (s ≢ "301")
                  × IsOutOfRange (atoi s)))))
        × ((redirect_endpoint status ≡ redirected "/param_forwarding/" code) ↔ (
            (s : String) × (rest : List String) × (status ≡ some (s ∷ rest))
            × (((s ≡ "301") × (code ≡ 301))
                ⊎ ((s ≢ "301") × (atoi s ≡ natural code) × (100 ≤ code) × (code ≤ 999)))))
  unfolding redirect_endpoint redirect
  redirect_endpoint_iff none code = (ground arith, ground arith)
  redirect_endpoint_iff (some []) code = (ground arith, ground arith)
  redirect_endpoint_iff (some (s ∷ rest)) code =
      let (to, from) = parsed_status-panicked (atoi s) in
      let (into, out) = parsed_status-redirected (atoi s) code in
      (
        (
          (λ h. inr (
              inr (
                s,
                rest,
                refl,
                (λ e. absurd (ground (arith, h, e, eq_iff s "301"))),
                to (ground (arith, h, eq_iff s "301")),
              ))),
          (λ h. elim h [
            | inl e ↦ absurd (ground (arith, e))
            | inr (inl e) ↦ absurd (ground (arith, e))
            | inr (inr (t, others, e, other, bad)) ↦
                let same : s ≡ t = ground (arith, e) in
                ground (arith, eq_iff s "301", same, other, from (rw same bad))
          ]),
        ),
        (
          (λ h. (s, rest, refl, ground (arith, h, into, eq_iff s "301"))),
          (λ (t, others, e, h).
              let same : s ≡ t = ground (arith, e) in ground (arith, eq_iff s "301", same, h, out)),
        ),
      )

-- After the deletion of a key, that key has no values, and every other key has those that it had.
lookup-del :
    (k j : String) (m : Dict (List String))
    → lookup j (del k m) ≡ (if str_eq k j then none else lookup j m)
unfolding lookup del
lookup-del k j [] = ground arith
lookup-del k j ((i, v) ∷ m) = ground (arith, eq_iff k j, eq_iff i k, eq_iff i j, lookup-del k j m)
