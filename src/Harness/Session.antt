-- ===== src/Harness/Session.antt =====
-- cmd/pucora-integration/main.go with the builder of the command, the configuration and the wait of
-- tests/integration.go: what the command does on a machine.
use pucora_ce.Base.{ℕ, String, Bool, List, [], ◌∷◌, ◌≡◌, refl, ◌↔◌, ◌⊎◌, inl, inr}
use pucora_ce.Base.{Option, none, some, arith, All, Option-cases}
use pucora_ce.Base.Dict.{Dict}
use pucora_ce.Base.Result.{Result, ok}
use pucora_ce.Harness.Config.{
  Config, Flags, get_bin_path, get_cfg_path, get_specs_path, get_environ_patterns, get_ready_url,
  get_ready_url_wait, get_startup_wait, get_http_client,
}
use pucora_ce.Harness.Environ.{get_environ}
use pucora_ce.Harness.Ready.{Reply, Unready, wait_for_ready}
use pucora_ce.Harness.Startup.{Waited, wait_for_startup, wait_for_startup-ready_iff}
use pucora_ce.Harness.Response.{Codecs, Message}
use pucora_ce.Harness.Check.{TestCase, Http}
use pucora_ce.Harness.Specs.{Entry, read_specs}
use pucora_ce.Harness.Cases.{AreDecoded}
use pucora_ce.Harness.Main.{Exit}
use pucora_ce.Harness.Suite.{suite, IsPassing, suite-succeeds_iff}

-- `exec.Cmd`
pub record Command : Type 0 where
  pub path : String
  pub args : List String
  pub env : List String

-- `defaultConfig`, the zero value, which `NewIntegration` takes for a nil configuration.
abbrev pub default_config : {Client : Type 0} → Config Client
default_config = record {
  bin_path = "";
  cfg_path = "";
  specs_path = "";
  environ_patterns = "";
  backend_port = 0;
  delay = 0;
  http_client = none;
  startup_wait = 0;
  ready_url = "";
  ready_url_wait = 0;
}

-- The machine: the variables of the harness, what `cmd.Start` gives for a command, the folders, and
-- the answers to the requests for the ready URL with how long they take.
pub record Machine : Type 0 where
  pub environ : List String
  pub start : Command → Option String
  pub read_dir : String → Result (List Entry)
  pub reply : ℕ → Reply
  pub latency : ℕ → ℕ
  pub now : ℕ

-- The libraries, and how the errors are written.
pub record Tools (C : Codecs) : Type 1 where
  pub Client : Type 0
  pub Regexp : Type 0
  pub http : Client → Http C
  pub compile : String → Option Regexp
  pub matches : Regexp → String → Bool
  pub decode : String → Result TestCase
  pub order : Dict String → Dict String
  pub join : List Message → String
  pub unready : Unready → String

module _ (C : Codecs) (T : Tools C) (flags : Flags T.Client) (cfg : Config T.Client)
    (M : Machine) where
  -- `pucoraCmdBuilder.New`
  pub new_command : Command
  new_command = record {
    path = get_bin_path flags cfg;
    args = "run" ∷ "-d" ∷ "-c" ∷ get_cfg_path flags cfg ∷ [];
    env = get_environ T.compile T.matches (get_environ_patterns flags cfg) M.environ;
  }

  -- What the wait returns; a wait that is cut off does not occur.
  written : Option Unready → Option String
  written none = none
  written (some e) = some (T.unready e)

  pub startup_error : Option Waited → Option String
  unfolding written
  startup_error none = some "cut off"
  startup_error (some w) = written w.error

  pub startup : Option Waited
  startup =
      wait_for_startup M.reply M.latency (get_ready_url flags cfg) (get_ready_url_wait flags cfg)
        (get_startup_wait flags cfg) M.now

  -- `main`, for any configuration.
  unfoldable pub session : Exit
  unfolding startup_error startup
  session =
      suite C (T.http (get_http_client flags cfg)) T.join T.decode T.order
        (M.read_dir (get_specs_path flags cfg)) (M.start new_command) (startup_error startup)

  -- There is nothing to ask, or the last answer says that the gateway is ready.
  abbrev pub IsReady : Type 0
  IsReady =
      (get_ready_url flags cfg ≡ "")
      ⊎ ((n : ℕ) × (wait_for_ready M.reply M.latency (get_ready_url flags cfg)
              (get_ready_url_wait flags cfg) M.now
            ≡ some (none, n)))

  startup_error_iff :
      (o : Option Waited)
      → (startup_error o ≡ none) ↔ ((w : Waited) × (o ≡ some w) × (w.error ≡ none))
  unfolding startup_error written
  startup_error_iff none =
      ((λ h. absurd (ground (arith, h))), (λ (w, e, h). absurd (ground (arith, e))))
  startup_error_iff (some w) = elim (Option-cases w.error) [
    | inl good ↦ ((λ h. (w, refl, good)), (λ h. ground (arith, good)))
    | inr (u, bad) ↦
        ((λ h. absurd (ground (arith, bad, h))), (λ (v, e, h). absurd (ground (arith, bad, e, h))))
  ]

  pub startup-IsReady : (startup_error startup ≡ none) ↔ IsReady
  unfolding startup
  startup-IsReady =
      let (to, from) = startup_error_iff startup in
      let (into, out) =
        wait_for_startup-ready_iff M.reply M.latency (get_ready_url flags cfg)
          (get_ready_url_wait flags cfg) (get_startup_wait flags cfg) M.now in
      ((λ h. into (to h)), (λ r. from (out r)))

  -- With whatever configuration, the command exits with 0 exactly when the command that is built from
  -- it starts, there is no URL to wait for or the wait for it ends with a good answer, the specs of
  -- its folder are read and decoded, and the answer of its client to the request of every test case
  -- is the one it asks for.
  pub session-succeeds_iff : (session.status ≡ 0) ↔ (
      (M.start new_command ≡ none)
      × IsReady
      × (m : Dict String) × (tcs : List TestCase) × (read_specs
            (M.read_dir (get_specs_path flags cfg))
          ≡ ok m)
      × AreDecoded T.decode T.order (T.order m) tcs
      × All (IsPassing C (T.http (get_http_client flags cfg)) T.join T.decode T.order) tcs)
  unfolding session
  session-succeeds_iff =
      let (to, from) =
        suite-succeeds_iff C (T.http (get_http_client flags cfg)) T.join T.decode T.order
          (M.read_dir (get_specs_path flags cfg)) (M.start new_command) (startup_error startup) in
      let (into, out) = startup-IsReady in
      (
        (λ h. let (s, w, m, tcs, r, d, p) = to h in (s, into w, m, tcs, r, d, p)),
        (λ (s, w, m, tcs, r, d, p). from (s, out w, m, tcs, r, d, p)),
      )
