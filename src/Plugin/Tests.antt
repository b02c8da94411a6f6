-- ===== src/Plugin/Tests.antt =====
-- A folder with two plugins, of which one does not load, and the loaders of the gateway on it.
use pucora_ce.Base.{String, true, false, List, [], ◌∷◌, none, some}
use pucora_ce.Base.{◌≡◌, ◌≢◌, refl, inl, inr, str_eq, if◌then◌else◌, arith}
use pucora_ce.Plugin.Loader.{
  many, single, Loaders, load_plugins_with_context, load_plugins_with_context-lines, reported,
  debugged,
}
use pucora_ce.Plugin.Check.{Tools}
use pucora_ce.Plugin.Command.{Setup, test_plugin_func, nothing_expected}
use pucora_ce.Plugin.Exit.{Passes, test_plugin_func-succeeds_iff}

abbrev tools : Tools
tools = record {
  load_client = λ folder name. none;
  load_server =
      λ folder name. if str_eq name "bad.so" then some (single "symbol missing") else none;
  load_modifier = λ folder name. none;
  find_all = λ msg. [];
}

abbrev setup : Setup
setup = record {
  server_expected = true;
  client_expected = true;
  modifier_expected = false;
  additional_checks = [];
  tools = tools;
  is_missing = λ path. false;
  base = λ path. path;
  dir = λ path. ".";
}

abbrev good : List String
good = "good.so" ∷ []

some_args : good ≢ []
some_args = ground arith

good-Passes : Passes setup "good.so"
good-Passes = record {
  present = refl;
  server = inr refl;
  modifier = inl refl;
  client = inr refl;
  additional = tt;
}

test_plugin_func-succeeds_iff_example : (test_plugin_func setup good).status ≡ 0
unfolding nothing_expected
test_plugin_func-succeeds_iff_example = (test_plugin_func-succeeds_iff setup good).1 (ground arith)

abbrev loaders : Loaders
loaders = record {
  Context = String;
  background = "background";
  load_client = λ folder pattern. record { n = 2; error = none };
  load_server = λ folder pattern. record { n = 1; error = some (many ("a.so" ∷ "b.so" ∷ [])) };
  load_modifier = λ ctx folder pattern. record { n = 0; error = some (single "no folder") };
}

load_plugins_with_context-lines_example :
    (reported (load_plugins_with_context loaders "gateway" "/opt/plugins/" ".so") ≡ 3)
    × (debugged (load_plugins_with_context loaders "gateway" "/opt/plugins/" ".so")
        ≡ ("[SERVICE: Plugin Loader] Starting loading process" ∷ [])
          ∷ ("[SERVICE: Handler Plugin]" ∷ "a.so" ∷ [])
          ∷ ("[SERVICE: Handler Plugin]" ∷ "b.so" ∷ [])
          ∷ ("[SERVICE: Modifier Plugin]" ∷ "no folder" ∷ [])
          ∷ ("[SERVICE: Plugin Loader] Loading process completed" ∷ [])
          ∷ [])
load_plugins_with_context-lines_example =
    load_plugins_with_context-lines loaders "gateway" "/opt/plugins/" ".so"
