-- ===== src/Plugin/Exit.antt =====
-- When the command `test-plugin` succeeds, and what it counts.
use pucora_ce.Base.{
  ℕ, ◌+◌, String, Bool, Bool-cases, ◌≤◌, ◌<◌, true, false, not, ◌&&◌, List, [], ◌∷◌, ◌++◌, ◌≡◌,
  refl,
}
use pucora_ce.Base.{◌≢◌, ◌↔◌, ◌⊎◌, inl, inr, none, arith, if◌then◌else◌, length, All}
use pucora_ce.Plugin.Check.{
  Verdict, check_plugin-passed_iff, check_client_plugin, check_handler_plugin,
  check_modifier_plugin,
}
use pucora_ce.Plugin.Command.{
  add_check, Setup, Line, summary_ko, Progress, also, all_checks, flag_checks, test_plugin, step,
  loop, nothing_expected, start_progress, test_plugin_func,
}

module _ (s : Setup) where
  open s use {server_expected, client_expected, modifier_expected, additional_checks, tools}
  open s use {is_missing, base, dir}

  -- A plugin is there, and passes each check that was asked for.
  pub record Passes (path : String) : Type 0 where
    pub present : is_missing path ≡ false
    pub server : (server_expected ≡ false) ⊎ (tools.load_server (dir path) (base path) ≡ none)
    pub modifier : (modifier_expected ≡ false) ⊎ (tools.load_modifier (dir path) (base path) ≡ none)
    pub client : (client_expected ≡ false) ⊎ (tools.load_client (dir path) (base path) ≡ none)
    pub additional : All (λ check. (check (dir path) (base path)).passed ≡ true) additional_checks

  pub passes : String → Bool
  passes path = not (is_missing path) && (test_plugin s path).passed

  abbrev all_pass : List String → Bool
  all_pass [] = true
  all_pass (path ∷ paths) = passes path && all_pass paths

  abbrev failures : List String → ℕ
  failures [] = 0
  failures (path ∷ paths) = (if passes path then 0 else 1) + failures paths

  loop-global_ok :
      (p : Progress) (paths : List String)
      → (loop s p paths).global_ok ≡ (p.global_ok && all_pass paths)
  unfolding loop passes
  loop-global_ok p [] = ground arith
  loop-global_ok p (path ∷ paths) = ground (arith, loop-global_ok (step s p path) paths)

  loop-failed :
      (p : Progress) (paths : List String) → (loop s p paths).failed ≡ p.failed + failures paths
  unfolding loop passes
  loop-failed p [] = omega arith
  loop-failed p (path ∷ paths) = ground (arith, loop-failed (step s p path) paths)

  all_checks-passed :
      (checks : List (String → String → Verdict String)) (folder name : String)
      (ok : Verdict String)
      → ((all_checks s checks folder name ok).passed ≡ true)
        ↔ ((ok.passed ≡ true) × All (λ check. (check folder name).passed ≡ true) checks)
  unfolding all_checks
  all_checks-passed [] folder name ok = ground arith
  all_checks-passed (check ∷ checks) folder name ok =
      ground (arith, all_checks-passed checks folder name (also s (check folder name) ok))

  flag_checks_iff :
      (folder name : String)
      → ((flag_checks s folder name).passed ≡ true) ↔ (
          ((server_expected ≡ false) ⊎ (tools.load_server folder name ≡ none))
          × ((modifier_expected ≡ false) ⊎ (tools.load_modifier folder name ≡ none))
          × ((client_expected ≡ false) ⊎ (tools.load_client folder name ≡ none)))
  unfolding flag_checks check_client_plugin check_handler_plugin check_modifier_plugin
  flag_checks_iff folder name = ground (
    arith,
    check_plugin-passed_iff tools.find_all "SERVER" "HandlerRegisterer" name
        (tools.load_server folder name),
    check_plugin-passed_iff tools.find_all "MODIFIER" "ModifierRegisterer" name
        (tools.load_modifier folder name),
    check_plugin-passed_iff tools.find_all "CLIENT" "ClientRegisterer" name
        (tools.load_client folder name),
  )

  passes_iff : (path : String) → (passes path ≡ true) ↔ Passes path
  unfolding passes test_plugin
  passes_iff path = ground (
    arith,
    flag_checks_iff (dir path) (base path),
    all_checks-passed additional_checks (dir path) (base path)
        (flag_checks s (dir path) (base path)),
  )

  all_pass_iff : (paths : List String) → (all_pass paths ≡ true) ↔ All Passes paths
  all_pass_iff [] = ground arith
  all_pass_iff (path ∷ paths) = ground (arith, passes_iff path, all_pass_iff paths)

  -- The command exits with 0 exactly when it was given a plugin and something to check for, and
  -- every plugin is there and passes every check asked for.
  pub test_plugin_func-succeeds_iff :
      (args : List String)
      → ((test_plugin_func s args).status ≡ 0)
        ↔ ((args ≢ []) × (nothing_expected s ≡ false) × All Passes args)
  unfolding test_plugin_func
  test_plugin_func-succeeds_iff [] = ground arith
  test_plugin_func-succeeds_iff (path ∷ paths) =
      ground (arith, all_pass_iff (path ∷ paths), loop-global_ok (start_progress s) (path ∷ paths))

  failures_bounds :
      (paths : List String)
      → (failures paths ≤ length paths) × ((all_pass paths ≡ true) ⊎ (0 < failures paths))
  failures_bounds [] = (omega arith, inl refl)
  failures_bounds (path ∷ paths) = ground (arith, failures_bounds paths)

  -- Otherwise, if there was something to check, the last line counts the arguments and those of
  -- them that failed, of which there is at least one, and the exit status is 1.
  test_plugin_func-failed :
      (path : String) (paths : List String)
      → nothing_expected s ≡ false
      → ¬ All Passes (path ∷ paths)
      → (ls : List Line) × ((test_plugin_func s (path ∷ paths)).status ≡ 1)
        × ((test_plugin_func s (path ∷ paths)).printed
            ≡ ls ++ (summary_ko (length (path ∷ paths)) (failures (path ∷ paths)) ∷ []))
        × (0 < failures (path ∷ paths))
        × (failures (path ∷ paths) ≤ length (path ∷ paths))
  unfolding test_plugin_func
  test_plugin_func-failed path paths asked bad =
      let end = loop s (start_progress s) (path ∷ paths) in
      (
        end.printed,
        ground (arith, outcome, asked, loop-global_ok (start_progress s) (path ∷ paths)),
        ground (
          arith,
          outcome,
          asked,
          loop-global_ok (start_progress s) (path ∷ paths),
          loop-failed (start_progress s) (path ∷ paths),
        ),
        ground (arith, outcome, failures_bounds (path ∷ paths)),
        (failures_bounds (path ∷ paths)).0,
      )
    where
      outcome : all_pass (path ∷ paths) ≡ false
      outcome = elim (Bool-cases (all_pass (path ∷ paths))) [
        | inl good ↦ absurd (bad ((all_pass_iff (path ∷ paths)).0 good))
        | inr failing ↦ failing
      ]

all_checks-append :
    (s : Setup) (check : String → String → Verdict String)
    (checks : List (String → String → Verdict String)) (folder name : String) (ok : Verdict String)
    → (all_checks (add_check check s) (checks ++ (check ∷ [])) folder name ok).passed
      ≡ ((check folder name).passed && (all_checks s checks folder name ok).passed)
unfolding all_checks
all_checks-append s check [] folder name ok = ground arith
all_checks-append s check (c ∷ cs) folder name ok =
    all_checks-append s check cs folder name (also s (c folder name) ok)

-- A check that is added runs beside those that were asked for before: a plugin then passes exactly
-- if it passed without it and passes it too.
test_plugin-add_check :
    (s : Setup) (check : String → String → Verdict String) (path : String)
    → (test_plugin (add_check check s) path).passed
      ≡ ((check (s.dir path) (s.base path)).passed && (test_plugin s path).passed)
unfolding test_plugin add_check flag_checks
test_plugin-add_check s check path =
    all_checks-append s check s.additional_checks (s.dir path) (s.base path)
      (flag_checks s (s.dir path) (s.base path))
