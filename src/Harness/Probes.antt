-- ===== src/Harness/Probes.antt =====
-- An environment of which a process gets the last value of each variable.
use text.Mathlib.TextPositions.{starts_with-append}
use pucora_ce.Base.{
  String, ◌<>◌, List, [], ◌∷◌, some, none, Option, ap, ◌≡◌, refl, starts_with, str_eq,
  if◌then◌else◌,
}
use pucora_ce.Base.Cut.{strip_prefix, strip_prefix_iff}
use pucora_ce.Executor.Event.{count, is_reporter_started}
use pucora_ce.Executor.Run.{execute}
use pucora_ce.Executor.Samples.{libraries, defaults, no_builder, config, schedule}
use pucora_ce.Harness.Environ.{get_environ, selected, patterns, split_commas, matches_any}
use pucora_ce.Harness.Silence.{AreOthers, execute-get_environ}

or_empty : Option String → String
or_empty none = ""
or_empty (some v) = v

value_of : String → String
unfolding or_empty
value_of w = or_empty (strip_prefix "USAGE_DISABLE=" w)

read_env : List String → String → String
unfolding value_of
read_env [] key = ""
read_env (w ∷ ws) key =
    let rest = read_env ws key in
    if starts_with w "USAGE_DISABLE=" then (if str_eq rest "" then value_of w else rest) else rest

read_env-AreOthers : (vs : List String) (key : String) → AreOthers vs → read_env vs key ≡ ""
unfolding read_env
read_env-AreOthers [] key h = refl
read_env-AreOthers (v ∷ vs) key (o, h) = rw o (read_env-AreOthers vs key h)

value_of-append : (v : String) → value_of ("USAGE_DISABLE=" <> v) ≡ v
unfolding value_of
value_of-append v =
    ap or_empty ((strip_prefix_iff "USAGE_DISABLE=" ("USAGE_DISABLE=" <> v) v).1 refl)

read_env_last :
    (v : String) (vs : List String)
    → AreOthers vs
    → read_env (("USAGE_DISABLE=" <> v) ∷ vs) "USAGE_DISABLE" ≡ v
unfolding read_env
read_env_last v vs h =
    rw (starts_with-append "USAGE_DISABLE=" v, read_env-AreOthers vs "USAGE_DISABLE" h)
      (value_of-append v)

execute-get_environ_example :
    count is_reporter_started (execute libraries defaults no_builder schedule config) ≡ 0
unfolding get_environ selected patterns split_commas matches_any read_env strip_prefix
execute-get_environ_example =
    execute-get_environ (λ p. some p) (λ re v. str_eq re v) libraries defaults no_builder schedule
      config read_env "HOME=/" ("HOME=/" ∷ "PATH=/bin" ∷ []) read_env_last refl (refl, (refl, tt))
