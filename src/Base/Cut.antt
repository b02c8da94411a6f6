-- ===== src/Base/Cut.antt =====
-- Searching in texts: `strings.Index` with the slices around the place that it finds, and
-- `strings.TrimSpace`.
use Prim.Native.Char.{Char, code}
use Prim.Native.String.{String, ◌++◌ as ◌<>◌}
use mathlib.Core.Path.{◌≡◌, refl, sym, ap, ◌∙◌}
use mathlib.Core.Logic.{◌↔◌, ◌⊎◌, inl, inr}
use mathlib.Core.Bool.{Bool, true, ◌&&◌, ◌||◌}
use mathlib.Core.Option.{Option, none, some}
use native.Mathlib.Omega.{arith}
use text.Mathlib.Text.{◌==◌ as str_eq}
use text.Mathlib.TextEquality.{Char-path}
use text.Mathlib.TextLemmas.{nil-append, cons-append, cons-eq-cons, nil≢cons}
use pucora_ce.Base.Tests.{if◌then◌else◌, leb, ◌==◌, ==_iff, Bool-cases, Option-cases, is_some}

-- The rest of a text after a prefix, if it has that prefix.
unfoldable pub strip_prefix : String → String → Option String
strip_prefix String.[] s = some s
strip_prefix (String.◌∷◌ c p) String.[] = none
strip_prefix (String.◌∷◌ c p) (String.◌∷◌ d s) =
    let rest = strip_prefix p s in if code c == code d then rest else none

pub strip_prefix_iff : (p s r : String) → (strip_prefix p s ≡ some r) ↔ (s ≡ p <> r)
unfolding strip_prefix
strip_prefix_iff String.[] s r = ground (arith, nil-append r)
strip_prefix_iff (String.◌∷◌ c p) String.[] r =
    ((λ h. absurd (ground (arith, h))), (λ h. absurd (nil≢cons (h ∙ cons-append c p r))))
strip_prefix_iff (String.◌∷◌ c p) (String.◌∷◌ d s) r = elim (Bool-cases (code c == code d)) [
  | inl e ↦ rw e (
    (λ h.
        cons-eq-cons.1
          (sym (Char-path c d ((==_iff (code c) (code d)).0 e)), (strip_prefix_iff p s r).0 h)
        ∙ sym (cons-append c p r)),
    (λ h. (strip_prefix_iff p s r).1 (cons-eq-cons.0 (h ∙ cons-append c p r)).1),
  )
  | inr e ↦ rw e (
    (λ h. absurd (ground (arith, h))),
    (λ h. absurd (
        ground (
          arith,
          e,
          (==_iff (code c) (code d)).1 (ap code (sym (cons-eq-cons.0 (h ∙ cons-append c p r)).0)),
        ))),
  )
]

prepended : Char → Option (String × String) → Option (String × String)
prepended c none = none
prepended c (some (a, b)) = some (String.◌∷◌ c a, b)

-- What stands before the first occurrence of a text, and what stands after it.
unfoldable pub cut : String → String → Option (String × String)
unfolding prepended
cut sep String.[] = elim (strip_prefix sep "") [ none ↦ none | some r ↦ some ("", r) ]
cut sep (String.◌∷◌ c s) =
    let later = prepended c (cut sep s) in
    elim (strip_prefix sep (String.◌∷◌ c s)) [ none ↦ later | some r ↦ some ("", r) ]

-- `strings.Contains`
abbrev pub has : String → String → Bool
has s sep = is_some (cut sep s)

-- `unicode.IsSpace`
abbrev pub is_space : Char → Bool
is_space c =
    let n = code c in
    (leb 9 n && leb n 13)
    || (n == 32)
    || (n == 0x85)
    || (n == 0xa0)
    || (n == 0x1680)
    || (leb 0x2000 n && leb n 0x200a)
    || (leb 0x2028 n && leb n 0x2029)
    || (n == 0x202f)
    || (n == 0x205f)
    || (n == 0x3000)

unfoldable pub trim_left : String → String
trim_left String.[] = String.[]
trim_left (String.◌∷◌ c s) = let rest = trim_left s in if is_space c then rest else String.◌∷◌ c s

unfoldable pub trim_right : String → String
trim_right String.[] = String.[]
trim_right (String.◌∷◌ c s) =
    let rest = trim_right s in if str_eq rest "" && is_space c then "" else String.◌∷◌ c rest

-- `strings.TrimSpace`
unfoldable pub trim : String → String
trim s = trim_right (trim_left s)

-- The text occurs somewhere.
abbrev pub OccursIn : String → String → Type 0
OccursIn sep String.[] = (r : String) × (String.[] ≡ sep <> r)
OccursIn sep (String.◌∷◌ c s) = ((r : String) × (String.◌∷◌ c s ≡ sep <> r)) ⊎ OccursIn sep s

strip_prefix_absent :
    (sep s : String) → ¬ ((r : String) × (s ≡ sep <> r)) → strip_prefix sep s ≡ none
strip_prefix_absent sep s h = elim (Option-cases (strip_prefix sep s)) [
  | inl gone ↦ gone
  | inr (r, there) ↦ absurd (h (r, (strip_prefix_iff sep s r).0 there))
]

pub cut_absent : (sep s : String) → ¬ OccursIn sep s → cut sep s ≡ none
unfolding cut
cut_absent sep String.[] h = ground (arith, strip_prefix_absent sep "" h)
cut_absent sep (String.◌∷◌ c s) h = ground (
  arith,
  strip_prefix_absent sep (String.◌∷◌ c s) (λ o. h (inl o)),
  cut_absent sep s (λ o. h (inr o)),
)

-- The text does not occur at a place before the end of the first part.
abbrev pub IsNotBefore : String → String → String → Type 0
IsNotBefore sep String.[] rest = Unit
IsNotBefore sep (String.◌∷◌ c s) rest =
    (¬ ((r : String) × (String.◌∷◌ c s <> rest ≡ sep <> r))) × IsNotBefore sep s rest

cut_at_start : (sep s r : String) → strip_prefix sep s ≡ some r → cut sep s ≡ some ("", r)
unfolding cut
cut_at_start sep String.[] r h = ground (arith, h)
cut_at_start sep (String.◌∷◌ c s) r h = ground (arith, h)

cut_later :
    (sep : String) (c : Char) (s a b : String)
    → strip_prefix sep (String.◌∷◌ c s) ≡ none
    → cut sep s ≡ some (a, b)
    → cut sep (String.◌∷◌ c s) ≡ some (String.◌∷◌ c a, b)
unfolding cut
cut_later sep c s a b h k = ground (arith, h, k)

pub cut_first :
    (sep pre post : String)
    → IsNotBefore sep pre (sep <> post)
    → cut sep (pre <> (sep <> post)) ≡ some (pre, post)
cut_first sep String.[] post h =
    rw (nil-append (sep <> post))
      (cut_at_start sep (sep <> post) post ((strip_prefix_iff sep (sep <> post) post).1 refl))
cut_first sep (String.◌∷◌ c s) post h = rw (cons-append c s (sep <> post)) (
    cut_later sep c (s <> (sep <> post)) s post
      (strip_prefix_absent sep _ (λ (r, e). h.0 (r, cons-append c s (sep <> post) ∙ e)))
      (cut_first sep s post h.1))

cut_present : (sep s : String) → OccursIn sep s → is_some (cut sep s) ≡ true
unfolding cut
cut_present sep String.[] (r, e) = ground (arith, (strip_prefix_iff sep "" r).1 e)
cut_present sep (String.◌∷◌ c s) (inl (r, e)) =
    ground (arith, (strip_prefix_iff sep (String.◌∷◌ c s) r).1 e)
cut_present sep (String.◌∷◌ c s) (inr o) = ground (arith, cut_present sep s o)

cut_found : (sep s : String) → is_some (cut sep s) ≡ true → OccursIn sep s
unfolding cut
cut_found sep String.[] h = elim (Option-cases (strip_prefix sep "")) [
  | inl gone ↦ absurd (ground (arith, h, gone))
  | inr (r, there) ↦ (r, (strip_prefix_iff sep "" r).0 there)
]
cut_found sep (String.◌∷◌ c s) h = elim (Option-cases (strip_prefix sep (String.◌∷◌ c s))) [
  | inl gone ↦ inr (cut_found sep s (ground (arith, h, gone)))
  | inr (r, there) ↦ inl (r, (strip_prefix_iff sep (String.◌∷◌ c s) r).0 there)
]

pub occurs_iff : (sep s : String) → (has s sep ≡ true) ↔ OccursIn sep s
occurs_iff sep s = (cut_found sep s, cut_present sep s)
