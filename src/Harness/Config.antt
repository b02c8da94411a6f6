-- ===== src/Harness/Config.antt =====
-- tests/integration.go: `Config`, whose zero fields stand for the values of the flags. Durations are
-- in milliseconds.
use pucora_ce.Base.{ℕ, String, Bool, Option, none, some, ◌==◌, str_eq, if◌then◌else◌}

pub record Config (Client : Type 0) : Type 0 where
  pub bin_path : String
  pub cfg_path : String
  pub specs_path : String
  pub environ_patterns : String
  pub backend_port : ℕ
  pub delay : ℕ
  pub http_client : Option Client
  pub startup_wait : ℕ
  pub ready_url : String
  pub ready_url_wait : ℕ

-- The flags, and the two clients that `defaultHttpClient` chooses from.
pub record Flags (Client : Type 0) : Type 0 where
  pub bin_path : String
  pub cfg_path : String
  pub specs_path : String
  pub environ_patterns : String
  pub backend_port : ℕ
  pub delay : ℕ
  pub not_follow_redirects : Bool
  pub startup_wait : ℕ
  pub ready_url : String
  pub ready_url_wait : ℕ
  pub default_client : Client
  pub use_last_response_client : Client

abbrev text_or : String → String → String
text_or s d = if str_eq s "" then d else s

abbrev number_or : ℕ → ℕ → ℕ
number_or n d = if n == 0 then d else n

module _ {Client : Type 0} (flags : Flags Client) (c : Config Client) where
  pub get_bin_path : String
  get_bin_path = text_or c.bin_path flags.bin_path

  pub get_cfg_path : String
  get_cfg_path = text_or c.cfg_path flags.cfg_path

  pub get_specs_path : String
  get_specs_path = text_or c.specs_path flags.specs_path

  pub get_backend_port : ℕ
  get_backend_port = number_or c.backend_port flags.backend_port

  pub get_delay : ℕ
  get_delay = number_or c.delay flags.delay

  unfoldable pub get_ready_url : String
  get_ready_url = text_or c.ready_url flags.ready_url

  unfoldable pub get_ready_url_wait : ℕ
  get_ready_url_wait = number_or c.ready_url_wait flags.ready_url_wait

  pub get_startup_wait : ℕ
  get_startup_wait = number_or c.startup_wait flags.startup_wait

  pub get_environ_patterns : String
  get_environ_patterns = text_or c.environ_patterns flags.environ_patterns

  default_http_client : Client
  default_http_client =
      if flags.not_follow_redirects then flags.use_last_response_client else flags.default_client

  pub get_http_client : Client
  unfolding default_http_client
  get_http_client = elim c.http_client [ none ↦ default_http_client | some client ↦ client ]
