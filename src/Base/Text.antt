-- ===== src/Base/Text.antt =====
-- Texts have decidable equality, so options of texts form a set.
use Prim.Native.String.{String}
use mathlib.Core.Logic.{inl, inr}
use mathlib.Core.Bool.{Bool}
use mathlib.Core.Option.{Option}
use mathlib.Core.HLevel.{hedberg}
use native.Mathlib.Omega.{arith}
use text.Mathlib.Text.{◌==◌}
use text.Mathlib.TextEquality.{eq_iff}
use pucora_ce.Base.Tests.{Bool-cases}

pub String-discrete : Discrete String
String-discrete s t = elim (Bool-cases (s == t)) [
  | inl same ↦ yes ((eq_iff s t).0 same)
  | inr other ↦ no (λ e. ground (arith, eq_iff s t))
]

pub String-set : IsSet String
String-set = hedberg String-discrete

pub Option_String-set : IsSet (Option String)
Option_String-set = hlevel String-set

pub Bool-set : IsSet Bool
Bool-set = hlevel
