-- ===== src/Harness/Assert.antt =====
-- When `assertResponse` accepts a response.
use pucora_ce.Base.{ℕ, String, true, List, [], ◌∷◌, ◌++◌, Option, none, some, ◌≡◌, ◌≢◌}
use pucora_ce.Base.{◌↔◌, ◌⊎◌, inl, inr, arith, eq_iff, All}
use pucora_ce.Base.{Option-cases}
use pucora_ce.Base.Dict.{Dict, lookup}
use pucora_ce.Base.Equal.{same_texts_iff, deep_equal}
use pucora_ce.Base.Json.{Json, null, Fields, end, field}
use pucora_ce.Base.Result.{Result, ok, err}
use pucora_ce.Harness.Response.{
  Output, Codecs, Response, Message, passes, Content, status_messages, one_header, header_messages,
  content, schema_messages, body_messages, verdict, conclude, with_headers, assert_response,
}

module _ (C : Codecs) (actual : Response C) where
  -- The header has exactly the wanted values; or it is missing, and the first one wanted is empty.
  abbrev pub HeaderMatches : String × List String → Type 0
  HeaderMatches e =
      (lookup (C.canonical_key e.0) actual.header ≡ some e.1)
      ⊎ ((lookup (C.canonical_key e.0) actual.header ≡ none)
          × ((vs : List String) × (e.1 ≡ "" ∷ vs)))

  -- The body is there, and the compiled schema accepts it.
  pub record SchemaAccepts (schema : Fields) (bytes : String) : Type 0 where
    pub non_empty : bytes ≢ ""
    pub text : String
    pub marshalled : C.marshal schema ≡ ok text
    pub doc : Json
    pub loaded : C.unmarshal_schema text ≡ ok doc
    pub compiled : C.Schema
    pub compiles : C.compile doc ≡ ok compiled
    pub value : Json
    pub decoded : C.unmarshal_schema bytes ≡ ok value
    pub accepted : C.validate compiled value ≡ none

  -- A schema, if there is one, takes the place of the body.
  abbrev pub BodyMatches : Fields → Json → Content → Type 0
  BodyMatches end want c = (want ≡ null) ⊎ (deep_equal c.value want ≡ true)
  BodyMatches (field k v fs) want c = SchemaAccepts (field k v fs) c.bytes

  one_header_iff :
      (k : String) (vs : List String)
      → (one_header C actual k vs (lookup (C.canonical_key k) actual.header) ≡ some [])
        ↔ HeaderMatches (k, vs)
  unfolding one_header
  one_header_iff k [] = elim (Option-cases (lookup (C.canonical_key k) actual.header)) [
    | inl gone ↦ rw gone (ground arith)
    | inr (hs, there) ↦ rw there (ground (arith, same_texts_iff [] hs))
  ]
  one_header_iff k (v ∷ vs) = elim (Option-cases (lookup (C.canonical_key k) actual.header)) [
    | inl gone ↦ rw gone (ground (arith, eq_iff v ""))
    | inr (hs, there) ↦ rw there (ground (arith, same_texts_iff (v ∷ vs) hs))
  ]

  header_messages_iff :
      (h : Dict (List String)) → (header_messages C actual h ≡ some []) ↔ All HeaderMatches h
  unfolding header_messages
  header_messages_iff [] = ground arith
  header_messages_iff ((k, vs) ∷ h) = ground (arith, one_header_iff k vs, header_messages_iff h)

  schema_messages_iff :
      (schema : Fields) (bytes : String)
      → (schema_messages C actual schema bytes ≡ []) ↔ SchemaAccepts schema bytes
  unfolding schema_messages
  schema_messages_iff schema bytes = ground (arith, eq_iff bytes "")

  body_messages_iff :
      (schema : Fields) (want : Json) (c : Content)
      → (body_messages C actual schema want c ≡ []) ↔ BodyMatches schema want c
  unfolding body_messages
  body_messages_iff end null c = ground arith
  body_messages_iff end want c = ground arith
  body_messages_iff (field k v fs) want c = schema_messages_iff (field k v fs) c.bytes

  -- The body can be read, and is as wanted.
  abbrev pub ReadMatches : Output → Result Content → Type 0
  ReadMatches expected (err e) = ⊥
  ReadMatches expected (ok c) = BodyMatches expected.schema expected.body c

  -- What the harness asks of a response.
  pub record Matches (expected : Output) : Type 0 where
    pub status : actual.status_code ≡ expected.status_code
    pub headers : All HeaderMatches expected.header
    pub body : ReadMatches expected (content C actual expected.body actual.body)

  status_messages_iff :
      (want : ℕ) → (status_messages C actual want ≡ []) ↔ (actual.status_code ≡ want)
  unfolding status_messages
  status_messages_iff want = ground arith

  append_nil_iff : (ms ns : List Message) → (ms ++ ns ≡ []) ↔ ((ms ≡ []) × (ns ≡ []))
  append_nil_iff [] ns = ground arith
  append_nil_iff (m ∷ ms) ns = ground arith

  verdict-append_iff :
      (ms ns : List Message) → (verdict C actual (ms ++ ns) ≡ passes) ↔ ((ms ≡ []) × (ns ≡ []))
  unfolding verdict
  verdict-append_iff [] [] = ground arith
  verdict-append_iff [] (n ∷ ns) = ground arith
  verdict-append_iff (m ∷ ms) ns = ground arith

  conclude_iff :
      (ms : List Message) (expected : Output) (o : Result Content)
      → (conclude C actual ms expected o ≡ passes) ↔ ((ms ≡ []) × ReadMatches expected o)
  unfolding conclude
  conclude_iff ms expected (err e) = ground arith
  conclude_iff ms expected (ok c) = ground (
    arith,
    verdict-append_iff ms (body_messages C actual expected.schema expected.body c),
    body_messages_iff expected.schema expected.body c,
  )

  with_headers_iff :
      (expected : Output) (o : Option (List Message))
      → (with_headers C actual expected o ≡ passes) ↔ (
          (o ≡ some [])
          × (actual.status_code ≡ expected.status_code)
          × ReadMatches expected (content C actual expected.body actual.body))
  unfolding with_headers
  with_headers_iff expected none = ground arith
  with_headers_iff expected (some ms) = ground (
    arith,
    conclude_iff (status_messages C actual expected.status_code ++ ms) expected
        (content C actual expected.body actual.body),
    status_messages_iff expected.status_code,
    append_nil_iff (status_messages C actual expected.status_code) ms,
  )

  -- `assertResponse` returns nil exactly for a response with the wanted status, the wanted headers,
  -- a body that can be read, and a body that the schema accepts, or that equals the wanted one if
  -- there is no schema. A missing header passes only where the first wanted value is empty.
  pub assert_response-passes_iff :
      (expected : Output) → (assert_response C actual expected ≡ passes) ↔ Matches expected
  unfolding assert_response
  assert_response-passes_iff expected = ground (
    arith,
    header_messages_iff expected.header,
    with_headers_iff expected (header_messages C actual expected.header),
  )
