-- ===== src/Executor/Usage.antt =====
-- executor.go: `usageReportingDisabled`, which reads the environment and the configuration.
use pucora_ce.Base.{String, Bool, true, false, not, ◌||◌, ◌≡◌, ◌↔◌, ◌⊎◌}
use pucora_ce.Base.{Option, none, some, arith, eq_iff, str_eq, if◌then◌else◌}
use pucora_ce.Base.Json.{obj, bool, Fields, get, as_object, as_bool}

abbrev pub usage_disable_env : String
usage_disable_env = "USAGE_DISABLE"

abbrev pub usage_config_ns : String
usage_config_ns = "telemetry/usage"

abbrev switched_off : String → Bool
switched_off v = str_eq v "1" || str_eq v "true" || str_eq v "TRUE"

-- `enabled, ok := …; ok && !enabled`, then `disabled, ok := …; ok && disabled`.
abbrev is_false : Option Bool → Bool
is_false (some b) = not b
is_false none = false

abbrev is_true : Option Bool → Bool
is_true (some b) = b
is_true none = false

config_disables : Option Fields → Bool
config_disables none = false
config_disables (some usage) =
    if is_false (as_bool (get "enabled" usage))
    then true
    else if is_true (as_bool (get "disabled" usage))
    then true
    else false

unfoldable pub usage_reporting_disabled : (String → String) → Fields → Bool
unfolding config_disables
usage_reporting_disabled getenv extra_config =
    if switched_off (getenv usage_disable_env)
    then true
    else config_disables (as_object (get usage_config_ns extra_config))

-- Reporting is off in exactly three cases: the variable holds one of the three spellings that the
-- code knows, or the section of the configuration is an object in which `enabled` is the Boolean
-- false, or in which `disabled` is the Boolean true.
pub usage_reporting_disabled_iff :
    (getenv : String → String) (extra_config : Fields)
    → (usage_reporting_disabled getenv extra_config ≡ true) ↔ (
        ((getenv "USAGE_DISABLE" ≡ "1")
          ⊎ ((getenv "USAGE_DISABLE" ≡ "true") ⊎ (getenv "USAGE_DISABLE" ≡ "TRUE")))
        ⊎ ((usage : Fields) × (get "telemetry/usage" extra_config ≡ some (obj usage))
            × ((get "enabled" usage ≡ some (bool false))
                ⊎ (get "disabled" usage ≡ some (bool true)))))
unfolding usage_reporting_disabled
usage_reporting_disabled_iff getenv extra_config = ground (
  arith,
  eq_iff (getenv "USAGE_DISABLE") "1",
  eq_iff (getenv "USAGE_DISABLE") "true",
  eq_iff (getenv "USAGE_DISABLE") "TRUE",
)
