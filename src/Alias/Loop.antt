-- ===== src/Alias/Loop.antt =====
-- The loop of `registerAliases` over the entries of `aliases`: what a short name resolves to.
use mathlib.Core.Logic.Or
use mathlib.Core.List.{Mem, mem-cons, not-mem-nil}
use pucora_ce.Base.{String, ◌≡◌, refl, sym, ap, ◌∙◌, [], ◌∷◌, some, inl, inr, arith, eq_iff}
use pucora_ce.Base.{str_eq, Bool-cases}
use pucora_ce.Base.Dict.{Dict, lookup, insert, lookup-insert}
use pucora_ce.Base.Text.{Option_String-set}
use pucora_ce.Alias.Defs.{register_all}

-- No short name belongs to two namespaces.
abbrev pub IsFunctional : Dict String → Type 0
IsFunctional es = (k j a : String) → Mem (k, a) es → Mem (j, a) es → k ≡ j

register_all-keeps :
    (es m : Dict String) (a k : String)
    → ((j : String) → Mem (j, a) es → j ≡ k)
    → lookup a m ≡ some k
    → lookup a (register_all es m) ≡ some k
unfolding register_all
register_all-keeps [] m a k only h = h
register_all-keeps ((j, b) ∷ es) m a k only h =
    register_all-keeps es (insert b j m) a k (λ i w. only i (mem-cons.1 (Or.inr w)))
      (elim (Bool-cases (str_eq b a)) [
        | inl same ↦
            rw (lookup-insert, same)
              (ap some (only j (mem-cons.1 (Or.inl (λ i. (j, (sym ((eq_iff b a).0 same)) i))))))
        | inr other ↦ rw (lookup-insert, other) h
      ])

pub lookup-register_all_of_mem :
    (es m : Dict String) (a k : String)
    → IsFunctional es
    → Mem (k, a) es
    → lookup a (register_all es m) ≡ some k
unfolding register_all
lookup-register_all_of_mem [] m a k one w = absurd (not-mem-nil w)
lookup-register_all_of_mem ((j, b) ∷ es) m a k one w =
    Or.elim (Option_String-set _ _) (mem-cons.0 w)
      (λ e.
        register_all-keeps es (insert b j m) a k (λ i v. one i k a (mem-cons.1 (Or.inr v)) w)
          (rw lookup-insert (
            ground (
              arith,
              eq_iff b a,
              ap (λ (p : String × String). p.0) e,
              ap (λ (p : String × String). p.1) e,
            ))))
      (λ v.
        lookup-register_all_of_mem es (insert b j m) a k
          (λ i l c x y. one i l c (mem-cons.1 (Or.inr x)) (mem-cons.1 (Or.inr y))) v)

pub lookup-register_all_of_absent :
    (es m : Dict String) (a : String)
    → ((k : String) → ¬ Mem (k, a) es)
    → lookup a (register_all es m) ≡ lookup a m
unfolding register_all
lookup-register_all_of_absent [] m a gone = refl
lookup-register_all_of_absent ((j, b) ∷ es) m a gone =
    lookup-register_all_of_absent es (insert b j m) a (λ k w. gone k (mem-cons.1 (Or.inr w)))
    ∙ elim (Bool-cases (str_eq b a)) [
      | inl same ↦ absurd (gone j (mem-cons.1 (Or.inl (λ i. (j, (sym ((eq_iff b a).0 same)) i)))))
      | inr other ↦ rw (lookup-insert, other)
    ]
