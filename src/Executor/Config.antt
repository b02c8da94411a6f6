-- ===== src/Executor/Config.antt =====
-- The parts of the service configuration (`config.ServiceConfig` of the router library) that the
-- executor reads.
use pucora_ce.Base.{ℕ, String, List, Option, Bool}
use pucora_ce.Base.Json.{Fields}

pub record PluginConfig : Type 0 where
  pub folder : String
  pub pattern : String

pub record AsyncAgent : Type 0 where
  pub name : String

pub record ServiceConfig : Type 0 where
  pub extra_config : Fields
  pub plugin : Option PluginConfig
  pub dns_cache_ttl : ℕ
  pub async_agents : List AsyncAgent
  pub sequential_start : Bool
