-- ===== src/Pipe/Layers.antt =====
-- What the layers of the router and proxy libraries are to a request, and how a stack of them behaves.
-- The state of a request is its context: the request as it stands and what the layers keep.
use pucora_ce.Base.{
  List, [], ◌∷◌, ◌++◌, Option, none, some, ◌≡◌, refl, sym, ◌∙◌, ap, ◌⊎◌, inl, inr, All,
}
use pucora_ce.Base.{Option-cases}

-- A middleware answers by itself, or hands the context on to the next and sees the answer of that.
pub record Layer (S A : Type 0) : Type 0 where
  pub before : S → Option A × S
  pub after : A × S → A × S

-- The way in ends with an answer, or at the innermost handler.
pub data End (S A : Type 0) : Type 0 where
  answered : A → S → End S A
  arrived : S → End S A

-- The layers that were passed, the innermost first.
pub record Descent (S A : Type 0) : Type 0 where
  pub passed : List (Layer S A)
  pub end : End S A

module _ {S A : Type 0} where
  abbrev pub settled : Layer S A → (S → A × S) → Option A × S → A × S
  settled m next (some a, s) = (a, s)
  settled m next (none, s) = m.after (next s)

  abbrev pub through : Layer S A → (S → A × S) → S → A × S
  through m next s = settled m next (m.before s)

  -- Layers inside one another, the outermost first.
  abbrev pub stacked : List (Layer S A) → (S → A × S) → S → A × S
  stacked [] base = base
  stacked (m ∷ ms) base = through m (stacked ms base)

  abbrev entered : Layer S A → List (Layer S A) → (S → Descent S A) → Option A × S → Descent S A
  entered m passed next (some a, s) = record { passed = passed; end = answered a s }
  entered m passed next (none, s) = next s

  -- The way in, one layer after another, after those that were passed.
  unfoldable pub descend : List (Layer S A) → List (Layer S A) → S → Descent S A
  descend [] passed s = record { passed = passed; end = arrived s }
  descend (m ∷ ms) passed s = entered m passed (descend ms (m ∷ passed)) (m.before s)

  -- The way out, through the layers that were passed.
  unfoldable pub unwind : List (Layer S A) → A × S → A × S
  unwind [] o = o
  unwind (m ∷ ms) o = unwind ms (m.after o)

  abbrev reply : (S → A × S) → End S A → A × S
  reply base (answered a s) = (a, s)
  reply base (arrived s) = base s

  -- The way in to the first layer that answers, or to the base, and from there the way out.
  unfoldable pub two_phase : List (Layer S A) → (S → A × S) → S → A × S
  two_phase ms base s = let d = descend ms [] s in unwind d.passed (reply base d.end)

  unwind-descend :
      (ms passed : List (Layer S A)) (base : S → A × S) (s : S)
      → unwind (descend ms passed s).passed (reply base (descend ms passed s).end)
        ≡ unwind passed (stacked ms base s)
  unfolding descend unwind
  unwind-descend [] passed base s = refl
  unwind-descend (m ∷ ms) passed base s = elim (Option-cases (m.before s).0) [
    | inl on ↦ rw on (unwind-descend ms (m ∷ passed) base (m.before s).1)
    | inr (a, stop) ↦ rw stop refl
  ]

  pub stacked-two_phase :
      (ms : List (Layer S A)) (base : S → A × S) (s : S) → stacked ms base s ≡ two_phase ms base s
  unfolding two_phase unwind
  stacked-two_phase ms base s = sym (unwind-descend ms [] base s)

  pub stacked-append :
      (ms ns : List (Layer S A)) (base : S → A × S)
      → stacked (ms ++ ns) base ≡ stacked ms (stacked ns base)
  stacked-append [] ns base = refl
  stacked-append (m ∷ ms) ns base = ap (through m) (stacked-append ms ns base)

  -- One of the layers answers by itself.
  abbrev pub Answers : List (Layer S A) → S → Type 0
  Answers [] s = ⊥
  Answers (m ∷ ms) s =
      ((a : A) × ((m.before s).0 ≡ some a)) ⊎ (((m.before s).0 ≡ none) × Answers ms (m.before s).1)

  module _ {Q : Type 0} (view : S → Q) where
    -- A layer does not touch what is viewed.
    pub record Keeps (m : Layer S A) : Type 0 where
      pub inward : (s : S) → view (m.before s).1 ≡ view s
      pub outward : (o : A × S) → view (m.after o).1 ≡ view o.1

    -- What the outer layers do not touch is not touched by a request that one of them answers.
    pub stacked-Answers :
        (outer inner : List (Layer S A)) (base : S → A × S) (s : S)
        → All Keeps outer
        → Answers outer s
        → view (stacked (outer ++ inner) base s).1 ≡ view s
    stacked-Answers [] inner base s keep h = absurd h
    stacked-Answers (m ∷ ms) inner base s (k, ks) (inl (a, stop)) = rw stop (k.inward s)
    stacked-Answers (m ∷ ms) inner base s (k, ks) (inr (on, h)) = rw on (
        k.outward (stacked (ms ++ inner) base (m.before s).1)
        ∙ stacked-Answers ms inner base (m.before s).1 ks h
        ∙ k.inward s)

-- A layer put around what is a stack.
pub inside :
    {F S A : Type 0} (serve : F → S → A × S) (layer : F → F) (m : Layer S A)
    → ((f : F) → serve (layer f) ≡ through m (serve f))
    → {f : F} {next : S → A × S} → serve f ≡ next
    → serve (layer f) ≡ through m next
inside serve layer m law e = law _ ∙ ap (through m) e
