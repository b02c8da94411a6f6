-- ===== src/Base/Result.antt =====
-- A result beside an error, of which one counts.
use Prim.Native.String.{String}
use mathlib.Core.Bool.{Bool, true, false}

pub data Result (A : Type 0) : Type 0 where
  ok : A → Result A
  err : String → Result A

abbrev pub is_ok : {A : Type 0} → Result A → Bool
is_ok (ok a) = true
is_ok (err e) = false
