-- ===== src/Harness/Panics.antt =====
-- When `assertResponse` panics.
use pucora_ce.Base.{String, List, [], ◌∷◌, Option, none, some, ◌≡◌, ◌≢◌, ◌↔◌, ◌⊎◌}
use pucora_ce.Base.{arith}
use pucora_ce.Base.Dict.{Dict, lookup}
use pucora_ce.Base.Result.{Result, ok, err}
use pucora_ce.Harness.Response.{
  Output, Codecs, Response, Message, panics, Content, one_header, join, header_messages, verdict,
  conclude, with_headers, assert_response,
}

module _ (C : Codecs) (actual : Response C) where
  -- Some wanted header has no values, and the response does not have it.
  abbrev pub AnyBare : Dict (List String) → Type 0
  AnyBare [] = ⊥
  AnyBare ((k, vs) ∷ h) =
      ((vs ≡ []) × (lookup (C.canonical_key k) actual.header ≡ none)) ⊎ AnyBare h

  one_header-eq-none_iff :
      (k : String) (vs : List String) (o : Option (List String))
      → (one_header C actual k vs o ≡ none) ↔ ((vs ≡ []) × (o ≡ none))
  unfolding one_header
  one_header-eq-none_iff k [] none = ground arith
  one_header-eq-none_iff k [] (some hs) = ground arith
  one_header-eq-none_iff k (v ∷ vs) none = ground arith
  one_header-eq-none_iff k (v ∷ vs) (some hs) = ground arith

  join-eq-none_iff :
      (a b : Option (List Message)) → (join C actual a b ≡ none) ↔ ((a ≡ none) ⊎ (b ≡ none))
  unfolding join
  join-eq-none_iff none b = ground arith
  join-eq-none_iff (some ms) none = ground arith
  join-eq-none_iff (some ms) (some ns) = ground arith

  header_messages-eq-none_iff :
      (h : Dict (List String)) → (header_messages C actual h ≡ none) ↔ AnyBare h
  unfolding header_messages
  header_messages-eq-none_iff [] = ground arith
  header_messages-eq-none_iff ((k, vs) ∷ h) =
      let here = lookup (C.canonical_key k) actual.header in
      ground (
        arith,
        join-eq-none_iff (one_header C actual k vs here) (header_messages C actual h),
        one_header-eq-none_iff k vs here,
        header_messages-eq-none_iff h,
      )

  verdict-panics : (ms : List Message) → verdict C actual ms ≢ panics
  unfolding verdict
  verdict-panics [] e = ground (arith, e)
  verdict-panics (m ∷ ms) e = ground (arith, e)

  conclude-panics :
      (ms : List Message) (expected : Output) (o : Result Content)
      → conclude C actual ms expected o ≢ panics
  unfolding conclude
  conclude-panics ms expected (err x) e = ground (arith, e)
  conclude-panics ms expected (ok c) e = verdict-panics _ e

  with_headers-panics_iff :
      (expected : Output) (o : Option (List Message))
      → (with_headers C actual expected o ≡ panics) ↔ (o ≡ none)
  unfolding with_headers
  with_headers-panics_iff expected none = ground arith
  with_headers-panics_iff expected (some ms) =
      ((λ h. absurd (conclude-panics _ expected _ h)), (λ h. absurd (ground (arith, h))))

  -- `assertResponse` panics exactly if an output wants a header that the response does not have, with
  -- no values at all.
  pub assert_response-panics_iff :
      (expected : Output) → (assert_response C actual expected ≡ panics) ↔ AnyBare expected.header
  unfolding assert_response
  assert_response-panics_iff expected = ground (
    arith,
    with_headers-panics_iff expected (header_messages C actual expected.header),
    header_messages-eq-none_iff expected.header,
  )
