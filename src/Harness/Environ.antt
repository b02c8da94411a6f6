-- ===== src/Harness/Environ.antt =====
-- tests/integration.go: the environment of the gateway that is tested (`getEnviron` of
-- `pucoraCmdBuilder`).
use Prim.Native.Char.{code}
use pucora_ce.Base.{String, Bool, true, false, ◌||◌, List, [], ◌∷◌, ◌≡◌, refl, ap, Option, none}
use pucora_ce.Base.{some, ◌↔◌, ◌⊎◌, arith, if◌then◌else◌, ◌==◌}

-- `strings.Split(s, ",")`: the part before the first comma, and the others.
split_at : String → String × List String
split_at String.[] = (String.[], [])
split_at (String.◌∷◌ c s) =
    let (part, parts) = split_at s in
    if code c == b',' then (String.[], part ∷ parts) else (String.◌∷◌ c part, parts)

unfoldable pub split_commas : String → List String
unfolding split_at
split_commas s = let (part, parts) = split_at s in part ∷ parts

-- `regexp.Compile` and `MatchString`.
module _ {Regexp : Type 0} (compile : String → Option Regexp)
    (matches : Regexp → String → Bool) where
  unfoldable pub patterns : List String → List Regexp
  patterns [] = []
  patterns (p ∷ ps) =
      let rest = patterns ps in elim (compile p) [ none ↦ rest | some re ↦ re ∷ rest ]

  unfoldable pub matches_any : List Regexp → String → Bool
  matches_any [] v = false
  matches_any (re ∷ res) v = matches re v || matches_any res v

  unfoldable pub selected : List Regexp → List String → List String
  unfolding matches_any
  selected res [] = []
  selected res (v ∷ vs) = let rest = selected res vs in if matches_any res v then v ∷ rest else rest

  -- On the configured patterns and the variables of the harness, each as `name=value`.
  unfoldable pub get_environ : String → List String → List String
  get_environ environ_patterns environ =
      "USAGE_DISABLE=1" ∷ selected (patterns (split_commas environ_patterns)) environ

  -- The value stands in the list.
  abbrev pub Occurs : String → List String → Type 0
  Occurs v [] = ⊥
  Occurs v (w ∷ ws) = (w ≡ v) ⊎ Occurs v ws

  -- Some pattern compiles and matches the value.
  abbrev pub AnyMatches : String → List String → Type 0
  AnyMatches v [] = ⊥
  AnyMatches v (p ∷ ps) =
      ((re : Regexp) × (compile p ≡ some re) × (matches re v ≡ true)) ⊎ AnyMatches v ps

  matches_any-patterns_iff :
      (ps : List String) (v : String) → (matches_any (patterns ps) v ≡ true) ↔ AnyMatches v ps
  unfolding matches_any patterns
  matches_any-patterns_iff [] v = ground arith
  matches_any-patterns_iff (p ∷ ps) v = ground (arith, matches_any-patterns_iff ps v)

  selected_iff :
      (res : List Regexp) (vs : List String) (v : String)
      → Occurs v (selected res vs) ↔ (Occurs v vs × (matches_any res v ≡ true))
  unfolding selected
  selected_iff res [] v = ground arith
  selected_iff res (w ∷ ws) v = ground (arith, selected_iff res ws v, ap (matches_any res))

  -- The gateway gets the variable that disables the usage reports, and of the variables of the
  -- harness exactly those that some pattern of the list matches. A pattern that does not compile
  -- is passed over.
  pub get_environ_iff :
      (environ_patterns : String) (environ : List String) (v : String)
      → Occurs v (get_environ environ_patterns environ) ↔ (
          ("USAGE_DISABLE=1" ≡ v)
          ⊎ (Occurs v environ × AnyMatches v (split_commas environ_patterns)))
  unfolding get_environ
  get_environ_iff environ_patterns environ v = ground (
    arith,
    selected_iff (patterns (split_commas environ_patterns)) environ v,
    matches_any-patterns_iff (split_commas environ_patterns) v,
  )

  selected_all :
      (res : List Regexp) (vs : List String)
      → ((v : String) → matches_any res v ≡ true)
      → selected res vs ≡ vs
  unfolding selected
  selected_all res [] all = refl
  selected_all res (v ∷ vs) all = ground (arith, all v, selected_all res vs all)

  patterns_default : (re : Regexp) → compile "" ≡ some re → patterns (split_commas "") ≡ re ∷ []
  unfolding patterns split_commas
  patterns_default re c = ground arith

  -- The flag's default, the empty text, is one empty pattern and not an empty list of patterns:
  -- if it matches every value, as an empty expression does, the gateway gets the whole environment.
  get_environ_default :
      (re : Regexp) (environ : List String)
      → compile "" ≡ some re
      → ((v : String) → matches re v ≡ true)
      → get_environ "" environ ≡ "USAGE_DISABLE=1" ∷ environ
  unfolding get_environ matches_any
  get_environ_default re environ c all =
      ap (λ vs. "USAGE_DISABLE=1" ∷ vs)
        (rw (patterns_default re c) (selected_all (re ∷ []) environ (λ v. ground (arith, all v))))
