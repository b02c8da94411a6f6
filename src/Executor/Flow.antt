-- ===== src/Executor/Flow.antt =====
-- Code that appends to a trace of events and may return early: the body of a Go function with
-- early `return`s and `defer`, seen through the calls that it makes.
use pucora_ce.Base.{List, [], ◌∷◌, ◌++◌}

-- `go es a` has made the calls `es` and goes on with `a`; `halt es` has returned.
pub data Flow (E A : Type 0) : Type 0 where
  go : List E → A → Flow E A
  halt : List E → Flow E A

abbrev pub prepend : {E A : Type 0} → List E → Flow E A → Flow E A
prepend es (go fs a) = go (es ++ fs) a
prepend es (halt fs) = halt (es ++ fs)

infixl 5 ◌>>=◌ ◌>>◌
abbrev pub ◌>>=◌ : {E A B : Type 0} → Flow E A → (A → Flow E B) → Flow E B
go es a >>= f = prepend es (f a)
halt es >>= f = halt es

abbrev pub ◌>>◌ : {E B : Type 0} → Flow E (Unit {0}) → Flow E B → Flow E B
m >> k = m >>= λ _. k

abbrev pub emit : {E : Type 0} → E → Flow E (Unit {0})
emit e = go (e ∷ []) tt

abbrev pub emit_all : {E : Type 0} → List E → Flow E (Unit {0})
emit_all es = go es tt

-- The whole trace, with the calls that a `defer` makes when the function returns.
abbrev pub trace : {E A : Type 0} → Flow E A → List E
trace (go es a) = es
trace (halt es) = es

abbrev pub deferring : {E A : Type 0} → List E → Flow E A → Flow E A
deferring ds (go es a) = go (es ++ ds) a
deferring ds (halt es) = halt (es ++ ds)
