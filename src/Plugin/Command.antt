-- ===== src/Plugin/Command.antt =====
-- plugin.go: `testPluginFunc`, the command `test-plugin`.
use pucora_ce.Base.{ℕ, ◌+◌, String, ◌<>◌, Bool, true, false, not, ◌&&◌, List, [], ◌∷◌}
use pucora_ce.Base.{◌++◌, if◌then◌else◌, length, map}
use pucora_ce.Plugin.Check.{
  Tools, Verdict, check_client_plugin, check_handler_plugin, check_modifier_plugin,
}

-- The flags, and the file system as the command sees it: whether `os.Open` fails otherwise than by
-- a missing file makes no difference.
pub record Setup : Type 0 where
  pub server_expected : Bool
  pub client_expected : Bool
  pub modifier_expected : Bool
  pub additional_checks : List (String → String → Verdict String)
  pub tools : Tools
  pub is_missing : String → Bool
  pub base : String → String
  pub dir : String → String

pub data Line : Type 0 where
  text : String → Line
  summary_ko : ℕ → ℕ → Line
  summary_ok : ℕ → Line

-- The exit status and the lines.
pub record Outcome : Type 0 where
  pub status : ℕ
  pub printed : List Line

-- The variables of the loop over the arguments.
pub record Progress : Type 0 where
  pub failed : ℕ
  pub global_ok : Bool
  pub printed : List Line

unfoldable pub texts : List String → List Line
texts = map text

abbrev pub is_empty : {A : Type 0} → List A → Bool
is_empty [] = true
is_empty (x ∷ xs) = false

-- `AddCheck`
unfoldable pub add_check : (String → String → Verdict String) → Setup → Setup
add_check check s = record s { additional_checks = s.additional_checks ++ (check ∷ []) }

module _ (s : Setup) where
  open s use {server_expected, client_expected, modifier_expected, additional_checks, tools}
  open s use {is_missing, base, dir}

  -- `ok = check(…) && ok`: the check is made whatever `ok` is.
  unfoldable pub also : Verdict String → Verdict String → Verdict String
  also check ok = record {
    passed = check.passed && ok.passed;
    printed = ok.printed ++ check.printed;
  }

  unfoldable pub when_expected : Bool → Verdict String → Verdict String → Verdict String
  unfolding also
  when_expected expected check ok = if expected then also check ok else ok

  unfoldable pub all_checks :
      List (String → String → Verdict String) → String → String → Verdict String → Verdict String
  unfolding also
  all_checks [] folder name ok = ok
  all_checks (check ∷ checks) folder name ok =
      all_checks checks folder name (also (check folder name) ok)

  -- The checks that the three flags ask for, in the order of the source.
  unfoldable pub flag_checks : String → String → Verdict String
  unfolding when_expected
  flag_checks folder name =
      let start : Verdict String = record { passed = true; printed = [] } in
      let ok = when_expected server_expected (check_handler_plugin tools folder name) start in
      let ok = when_expected modifier_expected (check_modifier_plugin tools folder name) ok in
      when_expected client_expected (check_client_plugin tools folder name) ok

  unfoldable pub test_plugin : String → Verdict String
  test_plugin path =
      all_checks additional_checks (dir path) (base path) (flag_checks (dir path) (base path))

  -- One round of the loop.
  unfoldable pub step : Progress → String → Progress
  unfolding texts
  step p path =
      if is_missing path
      then record {
        failed = p.failed + 1;
        global_ok = false;
        printed = p.printed ++ (text ("[KO] Unable to open the plugin " <> path <> ".") ∷ []);
      }
      else let ok = test_plugin path in
        record {
          failed = if ok.passed then p.failed else p.failed + 1;
          global_ok = p.global_ok && ok.passed;
          printed = p.printed ++ texts ok.printed;
        }

  unfoldable pub loop : Progress → List String → Progress
  unfolding step
  loop p [] = p
  loop p (path ∷ paths) = loop (step p path) paths

  unfoldable pub nothing_expected : Bool
  nothing_expected =
      not server_expected
      && (not client_expected && (not modifier_expected && is_empty additional_checks))

  unfoldable pub start_progress : Progress
  start_progress = record { failed = 0; global_ok = true; printed = [] }

  unfoldable pub summary : ℕ → Progress → Outcome
  summary n p =
      if not p.global_ok
      then record { status = 1; printed = p.printed ++ (summary_ko n p.failed ∷ []) }
      else record { status = 0; printed = p.printed ++ (summary_ok n ∷ []) }

  unfoldable pub test_plugin_func : List String → Outcome
  unfolding summary start_progress
  test_plugin_func args =
      if is_empty args
      then record { status = 1; printed = text "At least one plugin is required." ∷ [] }
      else if nothing_expected
      then record {
        status = 1;
        printed = text "You must declare the expected type of the plugin." ∷ [];
      }
      else summary (length args) (loop start_progress args)
