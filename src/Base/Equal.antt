-- ===== src/Base/Equal.antt =====
-- `reflect.DeepEqual` on lists of texts and on decoded JSON, where objects are maps: neither the
-- order nor repeated, hidden entries count.
use Prim.Native.Nat.{ℕ, suc}
use Prim.Native.String.{String}
use mathlib.Core.Path.{◌≡◌, refl}
use mathlib.Core.Logic.{◌↔◌, ◌≢◌}
use mathlib.Core.Bool.{Bool, true, false, ◌&&◌}
use mathlib.Core.Option.{Option, none, some}
use mathlib.Core.List.{List, [], ◌∷◌}
use native.Mathlib.Omega.{arith}
use text.Mathlib.Text.{◌==◌ as str_eq}
use text.Mathlib.TextEquality.{eq_iff}
use text.Mathlib.TextPositions.{eq_refl}
use pucora_ce.Base.Tests.{◌==◌}
use pucora_ce.Base.Json.{
  Json, null, bool, num, str, arr, obj, Items, nil, cons, Fields, end, field, get,
}

unfoldable pub same_texts : List String → List String → Bool
same_texts [] [] = true
same_texts [] (t ∷ ts) = false
same_texts (s ∷ ss) [] = false
same_texts (s ∷ ss) (t ∷ ts) = str_eq s t && same_texts ss ts

pub same_texts_iff : (ss ts : List String) → (same_texts ss ts ≡ true) ↔ (ss ≡ ts)
unfolding same_texts
same_texts_iff [] [] = ground arith
same_texts_iff [] (t ∷ ts) = ground arith
same_texts_iff (s ∷ ss) [] = ground arith
same_texts_iff (s ∷ ss) (t ∷ ts) = ground (arith, eq_iff s t, same_texts_iff ss ts)

-- The number of entries, `len` of the map when no key is repeated.
unfoldable pub size : Fields → ℕ
size end = 0
size (field k v fs) = suc (size fs)

unfoldable pub same_bool : Bool → Bool → Bool
same_bool true b = b
same_bool false true = false
same_bool false false = true

-- What an entry of the left map is compared with, which may be missing.
unfoldable pub found : (Json → Bool) → Option Json → Bool
found equal none = false
found equal (some w) = equal w

unfoldable mutual
  pub deep_equal : Json → Json → Bool
  deep_equal null null = true
  deep_equal (bool a) (bool b) = same_bool a b
  deep_equal (num m) (num n) = str_eq m n
  deep_equal (str s) (str t) = str_eq s t
  deep_equal (arr xs) (arr ys) = items_equal xs ys
  deep_equal (obj fs) (obj gs) = size fs == size gs && fields_equal fs gs
  deep_equal _ _ = false

  pub items_equal : Items → Items → Bool
  items_equal nil nil = true
  items_equal (cons x xs) (cons y ys) = deep_equal x y && items_equal xs ys
  items_equal _ _ = false

  -- Every entry of the left map is in the right one, with an equal value.
  pub fields_equal : Fields → Fields → Bool
  fields_equal end gs = true
  fields_equal (field k v fs) gs = found (deep_equal v) (get k gs) && fields_equal fs gs

-- No object in the value repeats a key.
abbrev pub IsFreshKey : String → Fields → Type 0
IsFreshKey k end = Unit
IsFreshKey k (field j v fs) = (j ≢ k) × IsFreshKey k fs

abbrev mutual
  pub HasUniqueKeys : Json → Type 0
  HasUniqueKeys (arr xs) = ItemsHaveUniqueKeys xs
  HasUniqueKeys (obj fs) = FieldsHaveUniqueKeys fs
  HasUniqueKeys _ = Unit

  pub ItemsHaveUniqueKeys : Items → Type 0
  ItemsHaveUniqueKeys nil = Unit
  ItemsHaveUniqueKeys (cons x xs) = HasUniqueKeys x × ItemsHaveUniqueKeys xs

  pub FieldsHaveUniqueKeys : Fields → Type 0
  FieldsHaveUniqueKeys end = Unit
  FieldsHaveUniqueKeys (field k v fs) = IsFreshKey k fs × HasUniqueKeys v × FieldsHaveUniqueKeys fs

-- Each entry of the left map is what the right one has at its key.
abbrev AllFound : Fields → Fields → Type 0
AllFound end gs = Unit
AllFound (field k v fs) gs = (get k gs ≡ some v) × AllFound fs gs

AllFound-field :
    (k : String) (v : Json) (fs gs : Fields)
    → IsFreshKey k fs
    → AllFound fs gs
    → AllFound fs (field k v gs)
unfolding get
AllFound-field k v end gs u h = tt
AllFound-field k v (field j w fs) gs (ne, u) (e, h) =
    (ground (arith, eq_iff k j), AllFound-field k v fs gs u h)

AllFound-refl : (fs : Fields) → FieldsHaveUniqueKeys fs → AllFound fs fs
unfolding get
AllFound-refl end u = tt
AllFound-refl (field k v fs) (fresh, _, u) =
    (rw eq_refl, AllFound-field k v fs fs fresh (AllFound-refl fs u))

mutual
  unfolding deep_equal same_bool found

  deep_equal_self : (v : Json) → HasUniqueKeys v → deep_equal v v ≡ true
  deep_equal_self null u = refl
  deep_equal_self (bool true) u = refl
  deep_equal_self (bool false) u = refl
  deep_equal_self (num n) u = eq_refl n
  deep_equal_self (str s) u = eq_refl s
  deep_equal_self (arr xs) u = items_equal_self xs u
  deep_equal_self (obj fs) u = ground (arith, fields_equal_of_AllFound fs fs u (AllFound-refl fs u))

  items_equal_self : (xs : Items) → ItemsHaveUniqueKeys xs → items_equal xs xs ≡ true
  items_equal_self nil u = refl
  items_equal_self (cons x xs) (u, us) = rw (deep_equal_self x u) (items_equal_self xs us)

  fields_equal_of_AllFound :
      (fs gs : Fields) → FieldsHaveUniqueKeys fs → AllFound fs gs → fields_equal fs gs ≡ true
  fields_equal_of_AllFound end gs u h = refl
  fields_equal_of_AllFound (field k v fs) gs (fresh, u, us) (e, h) =
      rw (e, deep_equal_self v u) (fields_equal_of_AllFound fs gs us h)

-- A value in which no object repeats a key is deeply equal to itself.
pub deep_equal_refl : (v : Json) → HasUniqueKeys v → deep_equal v v ≡ true
deep_equal_refl v u = deep_equal_self v u
