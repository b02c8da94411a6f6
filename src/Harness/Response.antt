-- ===== src/Harness/Response.antt =====
-- tests/integration.go: `assertResponse`.
use pucora_ce.Base.{ℕ, String, Bool, false, ◌||◌, List, [], ◌∷◌, ◌++◌, Option, none}
use pucora_ce.Base.{some, ◌==◌, str_eq, starts_with, if◌then◌else◌}
use pucora_ce.Base.Cut.{cut}
use pucora_ce.Base.Dict.{Dict, lookup}
use pucora_ce.Base.Equal.{same_texts, deep_equal}
use pucora_ce.Base.Json.{Json, null, str, Fields, end, field}
use pucora_ce.Base.Result.{Result, ok, err}

-- `Output`. The entries of the header stand in the order in which the runtime yields them.
pub record Output : Type 0 where
  pub status_code : ℕ
  pub body : Json
  pub header : Dict (List String)
  pub schema : Fields

-- Readers, the codecs and the JSON schema library. `new_gzip_reader` may read from the stream also
-- where it fails.
pub record Codecs : Type 1 where
  pub Stream : Type 0
  pub Schema : Type 0
  pub canonical_key : String → String
  pub new_gzip_reader : Stream → Stream × Option Stream
  pub read_all : Stream → Result String
  pub unmarshal : String → Option Json
  pub marshal : Fields → Result String
  pub unmarshal_schema : String → Result Json
  pub compile : Json → Result Schema
  pub validate : Schema → Json → Option String

-- `http.Response`
pub record Response (C : Codecs) : Type 0 where
  pub status_code : ℕ
  pub header : Dict (List String)
  pub body : Option C.Stream

pub data Message : Type 0 where
  wrong_status : ℕ → ℕ → Message
  wrong_header : String → List String → List String → Message
  missing_header : String → Message
  empty_body : Message
  schema_unmarshalled schema_unread schema_uncompiled body_unread body_invalid : String → Message
  wrong_body : Json → Json → Message

-- nil, the error of reading the body, a `responseError`, or a panic of the function.
pub data Assertion : Type 0 where
  passes : Assertion
  read_failed : String → Assertion
  wrong : List Message → Assertion
  panics : Assertion

-- The body of the response as it was read: its bytes and the value for the comparison.
pub record Content : Type 0 where
  pub bytes : String
  pub value : Json

after_line : String → Option (String × String) → String
after_line s none = s
after_line s (some (line, rest)) = rest

-- `sanitizeValidationError`, on the text of the error.
unfoldable pub sanitize_validation_error : String → String
unfolding after_line
sanitize_validation_error s =
    if starts_with s "jsonschema validation failed with" then after_line s (cut "\n" s) else s

module _ (C : Codecs) (actual : Response C) where
  unfoldable pub status_messages : ℕ → List Message
  status_messages want =
      if actual.status_code == want then [] else wrong_status actual.status_code want ∷ []

  -- `vs[0] != ""` for a header that is not there: `none` is the panic on an empty list.
  unfoldable pub absent_messages : String → List String → Option (List Message)
  absent_messages k [] = none
  absent_messages k (v ∷ vs) = if str_eq v "" then some [] else some (missing_header k ∷ [])

  unfoldable pub present_messages : String → List String → List String → List Message
  present_messages k hs vs = if same_texts vs hs then [] else wrong_header k hs vs ∷ []

  unfoldable pub one_header : String → List String → Option (List String) → Option (List Message)
  unfolding absent_messages present_messages
  one_header k vs none = absent_messages k vs
  one_header k vs (some hs) = some (present_messages k hs vs)

  unfoldable pub join : Option (List Message) → Option (List Message) → Option (List Message)
  join (some ms) (some ns) = some (ms ++ ns)
  join none o = none
  join (some ms) none = none

  unfoldable pub header_messages : Dict (List String) → Option (List Message)
  unfolding one_header join
  header_messages [] = some []
  header_messages ((k, vs) ∷ rest) =
      join (one_header (C.canonical_key k) vs (lookup (C.canonical_key k) actual.header))
        (header_messages rest)

  unfoldable pub is_gzip : Option (List String) → Bool
  is_gzip (some (e ∷ es)) = str_eq e "gzip" || str_eq e "x-gzip"
  is_gzip _ = false

  unfoldable pub unpacked : C.Stream → C.Stream × Option C.Stream → C.Stream
  unpacked s (rest, none) = rest
  unpacked s (rest, some r) = r

  unfoldable pub body_reader : C.Stream → C.Stream
  unfolding is_gzip unpacked
  body_reader s =
      if is_gzip (lookup "Content-Encoding" actual.header)
      then unpacked s (C.new_gzip_reader s)
      else s

  unfoldable pub or_null : Option Json → Json
  or_null none = null
  or_null (some v) = v

  -- The switch on the type of the expected body.
  unfoldable pub decode : Json → String → Json
  unfolding or_null
  decode (str s) b = str b
  decode _ b = or_null (C.unmarshal b)

  unfoldable pub content_of : Json → Result String → Result Content
  unfolding decode
  content_of want (ok b) = ok (record { bytes = b; value = decode want b })
  content_of want (err e) = err e

  unfoldable pub content : Json → Option C.Stream → Result Content
  unfolding content_of body_reader
  content want none = ok (record { bytes = ""; value = null })
  content want (some s) = content_of want (C.read_all (body_reader s))

  unfoldable pub validated : C.Schema → Result Json → List Message
  validated s (err e) = body_unread e ∷ []
  validated s (ok b) = elim (C.validate s b) [
    | none ↦ []
    | some e ↦ body_invalid (sanitize_validation_error e) ∷ []
  ]

  unfoldable pub compiled : String → Result C.Schema → List Message
  unfolding validated
  compiled bytes (err e) = schema_uncompiled e ∷ []
  compiled bytes (ok s) = validated s (C.unmarshal_schema bytes)

  unfoldable pub loaded : String → Result Json → List Message
  unfolding compiled
  loaded bytes (err e) = schema_unread e ∷ []
  loaded bytes (ok doc) = compiled bytes (C.compile doc)

  unfoldable pub marshalled : String → Result String → List Message
  unfolding loaded
  marshalled bytes (err e) = schema_unmarshalled e ∷ []
  marshalled bytes (ok s) = loaded bytes (C.unmarshal_schema s)

  unfoldable pub schema_messages : Fields → String → List Message
  unfolding marshalled
  schema_messages schema bytes =
      if str_eq bytes "" then empty_body ∷ [] else marshalled bytes (C.marshal schema)

  unfoldable pub body_messages : Fields → Json → Content → List Message
  unfolding schema_messages
  body_messages end null c = []
  body_messages end want c = if deep_equal c.value want then [] else wrong_body c.value want ∷ []
  body_messages (field k v fs) want c = schema_messages (field k v fs) c.bytes

  unfoldable pub verdict : List Message → Assertion
  verdict [] = passes
  verdict (m ∷ ms) = wrong (m ∷ ms)

  unfoldable pub conclude : List Message → Output → Result Content → Assertion
  conclude ms expected (err e) = read_failed e
  conclude ms expected (ok c) = verdict (ms ++ body_messages expected.schema expected.body c)

  unfoldable pub with_headers : Output → Option (List Message) → Assertion
  with_headers expected none = panics
  with_headers expected (some ms) =
      conclude (status_messages expected.status_code ++ ms) expected
        (content expected.body actual.body)

  unfoldable pub assert_response : Output → Assertion
  assert_response expected = with_headers expected (header_messages expected.header)
