-- ===== src/Harness/Silence.antt =====
-- tests/integration.go with executor.go: the usage reports of a gateway that the harness starts.
use pucora_ce.Base.{
  String, ◌<>◌, Bool, false, List, [], ◌∷◌, Option, ◌≡◌, ◌∙◌, arith, starts_with, All,
}
use pucora_ce.Base.{inl, inr, Bool-cases}
use pucora_ce.Executor.Config.{ServiceConfig}
use pucora_ce.Executor.Collaborators.{Libraries, ExecutorBuilder, Collaborators}
use pucora_ce.Executor.Event.{count, is_reporter_started}
use pucora_ce.Executor.Run.{execute}
use pucora_ce.Executor.Usage.{usage_reporting_disabled_iff}
use pucora_ce.Executor.Gates.{final_config}
use pucora_ce.Executor.Correct.{team}
use pucora_ce.Executor.Reporting.{execute-reporter_started}
use pucora_ce.Harness.Environ.{get_environ, selected, matches_any}

-- No value sets the variable that switches the reports off.
abbrev pub AreOthers : List String → Type 0
AreOthers vs = All (λ v. starts_with v "USAGE_DISABLE=" ≡ false) vs

module _ {Regexp : Type 0} (compile : String → Option Regexp)
    (matches : Regexp → String → Bool) where
  selected-AreOthers :
      (res : List Regexp) (vs : List String)
      → AreOthers vs
      → AreOthers (selected compile matches res vs)
  unfolding selected
  selected-AreOthers res [] h = h
  selected-AreOthers res (v ∷ vs) (o, h) = elim (Bool-cases (matches_any compile matches res v)) [
    | inl yes_it ↦ rw yes_it (o, selected-AreOthers res vs h)
    | inr no_it ↦ rw no_it (selected-AreOthers res vs h)
  ]

  -- Where a process gets the last value that its environment has for a variable, a gateway that the
  -- harness starts, with whatever patterns, starts no usage report, under every schedule, if the
  -- environment of the harness does not set the variable that switches the reports off: the value
  -- that the harness puts first then stands.
  pub execute-get_environ :
      (L : Libraries) (defaults : Collaborators L) (e : ExecutorBuilder L) (schedule : List Bool)
      (cfg : ServiceConfig) (read_env : List String → String → String) (environ_patterns : String)
      (environ : List String)
      → ((v : String) (vs : List String)
          → AreOthers vs
          → read_env (("USAGE_DISABLE=" <> v) ∷ vs) "USAGE_DISABLE" ≡ v)
      → L.getenv "USAGE_DISABLE"
        ≡ read_env (get_environ compile matches environ_patterns environ) "USAGE_DISABLE"
      → AreOthers environ
      → count is_reporter_started (execute L defaults e schedule cfg) ≡ 0
  unfolding get_environ
  execute-get_environ L defaults e schedule cfg read_env environ_patterns environ last same others =
      let set : L.getenv "USAGE_DISABLE" ≡ "1" =
        same ∙ last "1" _ (selected-AreOthers _ environ others) in
      let off =
        (usage_reporting_disabled_iff L.getenv
            (final_config L (team L defaults e schedule cfg) cfg).extra_config).1
          (inl (inl set)) in
      execute-reporter_started L defaults e schedule cfg ∙ ground (arith, off)
