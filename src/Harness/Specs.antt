-- ===== src/Harness/Specs.antt =====
-- tests/integration.go: `readSpecs`.
use text.Mathlib.TextLemmas.{nil-append, cons-append}
use Prim.Native.Char.{Char}
use pucora_ce.Base.{ℕ, suc, ◌+◌, ◌≢◌}
use pucora_ce.Base.{String, ◌<>◌, List, [], ◌∷◌, ◌≡◌, refl, ◌↔◌, Option, none, some}
use pucora_ce.Base.{
  str_eq, eq_iff, arith, if◌then◌else◌, Option-cases, Bool-cases, inl, inr, ap, ◌∙◌,
}
use pucora_ce.Base.Dict.{Dict, lookup, insert, lookup-insert}
use pucora_ce.Base.Result.{Result, ok, err}

-- A file of the folder, as `os.ReadDir` lists it, with what `os.ReadFile` gives for it.
pub record Entry : Type 0 where
  pub name : String
  pub content : Result String

-- `strings.HasSuffix(name, ".json")` and `name[:len(name)-5]`.
unfoldable pub strip_json : String → Option String
strip_json String.[] = none
strip_json (String.◌∷◌ c s) =
    let rest = strip_json s in
    if str_eq (String.◌∷◌ c s) ".json"
    then some ""
    else elim rest [ none ↦ none | some n ↦ some (String.◌∷◌ c n) ]

size : String → ℕ
size String.[] = 0
size (String.◌∷◌ c s) = suc (size s)

size-append : (s t : String) → size (s <> t) ≡ size s + size t
unfolding size
size-append String.[] t = ap size (nil-append t) ∙ omega arith
size-append (String.◌∷◌ c s) t = ap size (cons-append c s t) ∙ omega (arith, size-append s t)

longer : (c : Char) (n : String) → ".json" ≢ String.◌∷◌ c n <> ".json"
unfolding size
longer c n e = omega (arith, ap size e, size-append (String.◌∷◌ c n) ".json")

empty-cons : (c : Char) (s : String) → "" ≢ String.◌∷◌ c s
unfolding size
empty-cons c s e = omega (arith, ap size e)

strip_json_iff : (s n : String) → (strip_json s ≡ some n) ↔ (s ≡ n <> ".json")
unfolding strip_json
strip_json_iff String.[] String.[] = ground (arith, eq_iff "" ".json", nil-append ".json")
strip_json_iff String.[] (String.◌∷◌ d n) =
    ground (arith, cons-append d n ".json", empty-cons d (n <> ".json"))
strip_json_iff (String.◌∷◌ c s) String.[] = elim (Option-cases (strip_json s)) [
  | inl gone ↦ rw gone (ground (arith, eq_iff (String.◌∷◌ c s) ".json", nil-append ".json"))
  | inr (x, there) ↦
      rw there (ground (arith, eq_iff (String.◌∷◌ c s) ".json", nil-append ".json", empty-cons c x))
]
strip_json_iff (String.◌∷◌ c s) (String.◌∷◌ d n) = elim (Option-cases (strip_json s)) [
  | inl gone ↦ rw gone (
      ground (
        arith,
        eq_iff (String.◌∷◌ c s) ".json",
        longer d n,
        empty-cons d n,
        cons-append d n ".json",
        gone,
        strip_json_iff s n,
      ))
  | inr (x, there) ↦ rw there (
      ground (
        arith,
        eq_iff (String.◌∷◌ c s) ".json",
        longer d n,
        empty-cons d n,
        cons-append d n ".json",
        there,
        strip_json_iff s n,
      ))
]

-- What the loop does with a file, by its name without the suffix: pass it over, keep its content, or
-- stop with the error of reading it.
unfoldable pub kept : Option String → Result String → Dict String → Result (Dict String)
kept none content m = ok m
kept (some n) (ok c) m = ok (insert n c m)
kept (some n) (err e) m = err e

unfoldable pub read_entries : List Entry → Result (Dict String) → Result (Dict String)
unfolding kept
read_entries [] r = r
read_entries (e ∷ es) (err x) = err x
read_entries (e ∷ es) (ok m) = read_entries es (kept (strip_json e.name) e.content m)

-- On what `os.ReadDir` gives.
unfoldable pub read_specs : Result (List Entry) → Result (Dict String)
unfolding read_entries
read_specs (err e) = err e
read_specs (ok es) = read_entries es (ok [])

-- The content of the last file of the list with the name, or else what was there before.
abbrev pub latest : String → List Entry → Option (Result String) → Option (Result String)
latest n [] before = before
latest n (e ∷ es) before =
    let there = latest n es (some e.content) in
    let not_there = latest n es before in if str_eq e.name (n <> ".json") then there else not_there

abbrev pub present : Option String → Option (Result String)
present none = none
present (some c) = some (ok c)

kept-lookup :
    (name n : String) (content : Result String) (m₀ m₁ : Dict String)
    → kept (strip_json name) content m₀ ≡ ok m₁
    → present (lookup n m₁)
      ≡ (if str_eq name (n <> ".json") then some content else present (lookup n m₀))
unfolding kept
kept-lookup name n (ok c) m₀ m₁ h = elim (Option-cases (strip_json name)) [
  | inl gone ↦ ground (arith, eq_iff name (n <> ".json"), strip_json_iff name n, gone)
  | inr (k, there) ↦ ground (
    arith,
    eq_iff name (n <> ".json"),
    strip_json_iff name n,
    there,
    lookup-insert k n c m₀,
    eq_iff k n,
    ap (λ (d : Dict String). lookup n d),
  )
]
kept-lookup name n (err e) m₀ m₁ h = elim (Option-cases (strip_json name)) [
  | inl gone ↦ ground (arith, eq_iff name (n <> ".json"), strip_json_iff name n, gone)
  | inr (k, there) ↦ ground (arith, there)
]

read_entries-latest :
    (es : List Entry) (r : Result (Dict String)) (m : Dict String) (n : String)
    → read_entries es r ≡ ok m
    → (m₀ : Dict String) × (r ≡ ok m₀)
      × (present (lookup n m) ≡ latest n es (present (lookup n m₀)))
unfolding read_entries
read_entries-latest [] r m n h = (m, h, refl)
read_entries-latest (e ∷ es) (err x) m n h = absurd (ground (arith, h))
read_entries-latest (e ∷ es) (ok m₀) m n h =
    let (m₁, k, found) = read_entries-latest es (kept (strip_json e.name) e.content m₀) m n h in
    (
      m₀,
      refl,
      found
          ∙ rw (kept-lookup e.name n e.content m₀ m₁ k)
              (elim (Bool-cases (str_eq e.name (n <> ".json"))) [
                | inl same ↦ rw same refl
                | inr other ↦ rw other refl
              ]),
    )

-- The specs that were read hold, under each name, the content of the last file of the folder that
-- is called so with `.json` after it, which could be read, and nothing if there is none.
pub read_specs_lem :
    (es : List Entry) (m : Dict String) (n : String)
    → read_specs (ok es) ≡ ok m
    → present (lookup n m) ≡ latest n es none
unfolding read_specs lookup
read_specs_lem es m n h =
    let (m₀, e, found) = read_entries-latest es (ok []) m n h in
    let same : m₀ ≡ [] = ground (arith, e) in
    found ∙ ap (λ d. latest n es (present (lookup n d))) same
