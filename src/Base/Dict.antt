-- ===== src/Base/Dict.antt =====
-- A Go map with string keys, as an association list in which the first entry of a key counts.
use Prim.Native.String.{String}
use mathlib.Core.Path.{◌≡◌, refl}
use mathlib.Core.Option.{Option, none, some}
use mathlib.Core.List.{List, [], ◌∷◌}
use native.Mathlib.Omega.{arith}
use text.Mathlib.Text.{◌==◌ as str_eq}
use text.Mathlib.TextEquality.{eq_iff}
use pucora_ce.Base.Tests.{if◌then◌else◌}

abbrev pub Dict {ℓ} : Type ℓ → Type ℓ
Dict V = List (String × V)

module _ {ℓ} {V : Type ℓ} where
  unfoldable pub lookup : String → Dict V → Option V
  lookup k [] = none
  lookup k ((j, v) ∷ m) = if str_eq j k then some v else lookup k m

  -- An assignment replaces the value of a key that is there, and adds the key at the end otherwise.
  unfoldable pub insert : String → V → Dict V → Dict V
  insert key value [] = (key, value) ∷ []
  insert key value ((other, old) ∷ rest) =
      let added = (other, old) ∷ insert key value rest in
      if str_eq other key then (key, value) ∷ rest else added

  pub lookup-insert :
      (key asked : String) (value : V) (m : Dict V)
      → lookup asked (insert key value m)
        ≡ (if str_eq key asked then some value else lookup asked m)
  unfolding lookup insert
  lookup-insert key asked value [] = refl
  lookup-insert key asked value ((other, old) ∷ rest) = ground (
    arith,
    lookup-insert key asked value rest,
    eq_iff other asked,
    eq_iff other key,
    eq_iff key asked,
  )
