-- ===== src/Alias/Refines.antt =====
-- The map that `registerAliases` builds, against a description of what a name resolves to that
-- knows of no map and of no order.
use mathlib.Core.Logic.Or
use mathlib.Core.List.{Mem, mem-cons, Perm}
use mathlib.Core.List.Perm
use pucora_ce.Base.{String, Bool, true, false, not, ◌&&◌, Option, none, some, ◌≡◌, refl, sym, ◌∙◌}
use pucora_ce.Base.{
  [], ◌∷◌, inl, inr, arith, eq_iff, str_eq, Bool-cases, Option-cases, if◌then◌else◌,
}
use pucora_ce.Base.Dict.{Dict, lookup, insert, lookup-insert}
use pucora_ce.Alias.Defs.{aliases, assign_all, multi_namespace, register_aliases, register_all}
use pucora_ce.Alias.Loop.{lookup-register_all_of_mem, lookup-register_all_of_absent}
use pucora_ce.Alias.Order.{aliases-IsFunctional, not-mem_of_has_alias, has_alias, assigns}

abbrev or_else : Option String → Option String → Option String
or_else (some x) o = some x
or_else none o = o

-- The namespace that has a short name.
abbrev namespace_of : String → Dict String → Option String
namespace_of a [] = none
namespace_of a ((k, b) ∷ es) = let rest = namespace_of a es in if str_eq b a then some k else rest

-- A short name for several namespaces comes first, then one of the table, then what the name meant.
abbrev pub resolution : String → Dict String → Option String
resolution a m = or_else (lookup a multi_namespace) (or_else (namespace_of a aliases) (lookup a m))

namespace_of-mem : (a k : String) (es : Dict String) → namespace_of a es ≡ some k → Mem (k, a) es
namespace_of-mem a k [] h = cc
namespace_of-mem a k ((j, b) ∷ es) h = elim (Bool-cases (str_eq b a)) [
  | inl same ↦
      let first : j ≡ k = ground (arith) in
      mem-cons.1 (Or.inl (λ i. (sym first i, sym ((eq_iff b a).0 same) i)))
  | inr other ↦ mem-cons.1 (Or.inr (namespace_of-mem a k es (ground arith)))
]

namespace_of-none :
    (a : String) (es : Dict String) → namespace_of a es ≡ none → has_alias a es ≡ false
namespace_of-none a [] h = refl
namespace_of-none a ((j, b) ∷ es) h = ground (arith, namespace_of-none a es)

abbrev unrepeated : Dict String → Bool
unrepeated [] = true
unrepeated ((a, k) ∷ es) = not (assigns a es) && unrepeated es

lookup_of_assigns : (a : String) (es : Dict String) → assigns a es ≡ false → lookup a es ≡ none
unfolding lookup
lookup_of_assigns a [] h = refl
lookup_of_assigns a ((b, k) ∷ es) h = ground (arith, lookup_of_assigns a es)

lookup-assign_all :
    (a : String) (es m : Dict String)
    → unrepeated es ≡ true
    → lookup a (assign_all es m) ≡ or_else (lookup a es) (lookup a m)
unfolding assign_all lookup
lookup-assign_all a [] m h = refl
lookup-assign_all a ((b, k) ∷ es) m h =
    lookup-assign_all a es (insert b k m) (ground arith)
    ∙ rw (lookup-insert b a k m) (ground (arith, eq_iff b a, lookup_of_assigns a es))

lookup-register_all :
    (order m : Dict String) (a : String)
    → Perm order aliases
    → lookup a (register_all order m) ≡ or_else (namespace_of a aliases) (lookup a m)
lookup-register_all order m a p = elim (Option-cases (namespace_of a aliases)) [
  | inl gone ↦ rw gone (
      lookup-register_all_of_absent order m a (λ k w.
        not-mem_of_has_alias a aliases (namespace_of-none a aliases gone) k ((Perm.mem_iff p).0 w)))
  | inr (k, there) ↦ rw there (
      lookup-register_all_of_mem order m a k (aliases-IsFunctional order p)
        ((Perm.mem_iff p).1 (namespace_of-mem a k aliases there)))
]

-- In whatever order the runtime yields the entries of `aliases`, and whatever the map held before,
-- each name resolves after `registerAliases` as the description says.
pub register_aliases-resolution :
    (order m : Dict String) (name : String)
    → Perm order aliases
    → lookup name (register_aliases order m) ≡ resolution name m
unfolding register_aliases
register_aliases-resolution order m name p =
    lookup-assign_all name multi_namespace (register_all order m) refl
    ∙ rw (lookup-register_all order m name p) refl

-- Two runs of the loop over `aliases`, each in an order of its own, leave maps that resolve every
-- name alike.
register_aliases_order :
    (order other m : Dict String) (name : String)
    → Perm order aliases
    → Perm other aliases
    → lookup name (register_aliases order m) ≡ lookup name (register_aliases other m)
register_aliases_order order other m name p q =
    register_aliases-resolution order m name p ∙ sym (register_aliases-resolution other m name q)
