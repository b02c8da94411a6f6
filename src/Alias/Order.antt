-- ===== src/Alias/Order.antt =====
-- The map that `registerAliases` builds: what the names of the table, and those of no assignment,
-- resolve to.
use mathlib.Core.Logic.Or
use mathlib.Core.List.{Mem, mem-cons, not-mem-nil, Perm}
use mathlib.Core.List.Perm
use pucora_ce.Base.{String, Bool, true, false, not, ◌&&◌, ◌||◌, ◌≡◌, refl, sym, ap, ◌∙◌}
use pucora_ce.Base.{[], ◌∷◌, some, inl, inr, arith, eq_iff, str_eq, Bool-cases}
use pucora_ce.Base.Dict.{Dict, lookup, insert, lookup-insert}
use pucora_ce.Base.Text.{Bool-set, String-set}
use pucora_ce.Alias.Defs.{aliases, assign_all, multi_namespace, register_aliases}
use pucora_ce.Alias.Loop.{IsFunctional, lookup-register_all_of_mem, lookup-register_all_of_absent}

abbrev pub has_alias : String → Dict String → Bool
has_alias a [] = false
has_alias a ((k, b) ∷ es) = str_eq b a || has_alias a es

mem-has_alias : (k a : String) (es : Dict String) → Mem (k, a) es → has_alias a es ≡ true
mem-has_alias k a [] w = absurd (not-mem-nil w)
mem-has_alias k a ((j, b) ∷ es) w =
    Or.elim (Bool-set _ _) (mem-cons.0 w)
      (λ e. ground (arith, ap (λ (p : String × String). p.1) e, eq_iff b a))
      (λ v. ground (arith, mem-has_alias k a es v))

has_alias-mem :
    (a : String) (es : Dict String) → has_alias a es ≡ true → (k : String) × Mem (k, a) es
has_alias-mem a [] h = cc
has_alias-mem a ((j, b) ∷ es) h = elim (Bool-cases (str_eq b a)) [
  | inl same ↦ (j, mem-cons.1 (Or.inl (λ i. (j, (sym ((eq_iff b a).0 same)) i))))
  | inr other ↦ let (k, w) = has_alias-mem a es (ground arith) in (k, mem-cons.1 (Or.inr w))
]

pub not-mem_of_has_alias :
    (a : String) (es : Dict String) → has_alias a es ≡ false → (k : String) → ¬ Mem (k, a) es
not-mem_of_has_alias a es h k w = ground (arith, mem-has_alias k a es w)

abbrev distinct : Dict String → Bool
distinct [] = true
distinct ((k, a) ∷ es) = not (has_alias a es) && distinct es

distinct-IsFunctional : (es : Dict String) → distinct es ≡ true → IsFunctional es
distinct-IsFunctional [] h k j a x y = absurd (not-mem-nil x)
distinct-IsFunctional ((l, b) ∷ es) h k j a x y =
    Or.elim (String-set _ _) (mem-cons.0 x)
      (λ e.
        Or.elim (String-set _ _) (mem-cons.0 y) (λ d. ap (λ (p : String × String). p.0) (e ∙ sym d))
          (λ v. absurd (clash (ap (λ (p : String × String). p.1) e) j v)))
      (λ u.
        Or.elim (String-set _ _) (mem-cons.0 y)
          (λ d. absurd (clash (ap (λ (p : String × String). p.1) d) k u))
          (λ v. distinct-IsFunctional es (ground arith) k j a u v))
  where
    clash : a ≡ b → (i : String) → Mem (i, a) es → ⊥
    clash e i v = ground (arith, rw e at (mem-has_alias i a es v))

pub aliases-IsFunctional : (order : Dict String) → Perm order aliases → IsFunctional order
aliases-IsFunctional order p k j a x y =
    distinct-IsFunctional aliases refl k j a ((Perm.mem_iff p).0 x) ((Perm.mem_iff p).0 y)

-- No entry of a list of assignments is for the short name.
abbrev pub assigns : String → Dict String → Bool
assigns a [] = false
assigns a ((b, k) ∷ es) = str_eq b a || assigns a es

lookup-assign_all_of_absent :
    (es m : Dict String) (a : String)
    → assigns a es ≡ false
    → lookup a (assign_all es m) ≡ lookup a m
unfolding assign_all
lookup-assign_all_of_absent [] m a h = refl
lookup-assign_all_of_absent ((b, k) ∷ es) m a h =
    lookup-assign_all_of_absent es (insert b k m) a (ground arith) ∙ rw lookup-insert (ground arith)

abbrev none_assigned : Dict String → Bool
none_assigned [] = true
none_assigned ((k, a) ∷ es) = not (assigns a multi_namespace) && none_assigned es

none_assigned_of_mem :
    (k a : String) (es : Dict String)
    → none_assigned es ≡ true
    → Mem (k, a) es
    → assigns a multi_namespace ≡ false
none_assigned_of_mem k a [] h w = absurd (not-mem-nil w)
none_assigned_of_mem k a ((j, b) ∷ es) h w =
    Or.elim (Bool-set _ _) (mem-cons.0 w)
      (λ e. rw (ap (λ (p : String × String). p.1) e) (ground arith))
      (λ v. none_assigned_of_mem k a es (ground arith) v)

-- In whatever order the runtime yields the entries of `aliases`, and whatever the map held before,
-- each short name of the table resolves to the namespace that the table gives it: no entry and no
-- later assignment overwrites it.
register_aliases-resolves :
    (order m : Dict String) (key alias : String)
    → Perm order aliases
    → Mem (key, alias) aliases
    → lookup alias (register_aliases order m) ≡ some key
unfolding register_aliases
register_aliases-resolves order m key alias p w =
    lookup-assign_all_of_absent multi_namespace _ alias
      (none_assigned_of_mem key alias aliases refl w)
    ∙ lookup-register_all_of_mem order m alias key (aliases-IsFunctional order p)
        ((Perm.mem_iff p).1 w)

-- A name that is neither in the table nor among the later assignments keeps its meaning.
register_aliases_other :
    (order m : Dict String) (name : String)
    → Perm order aliases
    → ((key : String) → ¬ Mem (key, name) aliases)
    → assigns name multi_namespace ≡ false
    → lookup name (register_aliases order m) ≡ lookup name m
unfolding register_aliases
register_aliases_other order m name p fresh free =
    lookup-assign_all_of_absent multi_namespace _ name free
    ∙ lookup-register_all_of_absent order m name (λ k w. fresh k ((Perm.mem_iff p).0 w))
