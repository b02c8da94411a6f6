-- ===== src/Executor/Report.antt =====
-- executor.go: the goroutine that `startReporter` starts once the configuration is hashed.
use pucora_ce.Base.{ℕ, String, List, [], ◌∷◌, Option, none, some}
use pucora_ce.Executor.Config.{ServiceConfig}

-- `usage.Options`, without the HTTP client.
pub record Options (Payload : Type 0) : Type 0 where
  pub cluster_id : String
  pub server_id : String
  pub version : String
  pub user_agent : String
  pub extra_payload : Payload

-- The audit and the usage libraries. `marshal` gives a payload beside its error, which is not read;
-- `report` is the error of `usage.Report`.
pub record UsageLibraries : Type 1 where
  pub Audit : Type 0
  pub Payload : Type 0
  pub new_server_id : String
  pub version : String
  pub user_agent : String
  pub parse : ServiceConfig → Audit
  pub marshal : Audit → Payload
  pub report : Options Payload → Option String

pub data Step (Payload : Type 0) : Type 0 where
  -- In seconds.
  slept : ℕ → Step Payload
  debugged : List String → Step Payload
  reported : Options Payload → Step Payload

abbrev pub usage_delay : ℕ
usage_delay = 5

abbrev log_prefix : String
log_prefix = "[SERVICE: Telemetry]"

module _ (U : UsageLibraries) where
  options : ServiceConfig → String → Options U.Payload
  options cfg id = record {
    cluster_id = id;
    server_id = U.new_server_id;
    version = U.version;
    user_agent = U.user_agent;
    extra_payload = U.marshal (U.parse cfg);
  }

  complaint : Option String → List (Step U.Payload)
  complaint none = []
  complaint (some e) =
      debugged (log_prefix ∷ "Unable to create the usage report client:" ∷ e ∷ []) ∷ []

  pub report_usage : ServiceConfig → String → List (Step U.Payload)
  unfolding options complaint
  report_usage cfg id =
      let o = options cfg id in
      slept usage_delay
      ∷ debugged (log_prefix ∷ "Registering usage stats for Cluster ID" ∷ id ∷ [])
      ∷ reported o
      ∷ complaint (U.report o)
