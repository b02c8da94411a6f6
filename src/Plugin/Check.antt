-- ===== src/Plugin/Check.antt =====
-- plugin.go: `checkClientPlugin`, `checkHandlerPlugin` and `checkModifierPlugin`.
use text.Mathlib.Text.{find?}
use pucora_ce.Base.{String, ◌<>◌, Bool, true, false, List, [], ◌∷◌, ◌≡◌, ◌↔◌, Option, none, some}
use pucora_ce.Base.{is_some, arith, if◌then◌else◌}
use pucora_ce.Plugin.Loader.{LoadError, many, single}

-- What the checks need of their surroundings: the loaders, with the errors that they return, and
-- `reLogErrorPlugins.FindAllStringSubmatch(msg, -1)`, with the first group of each match.
pub record Tools : Type 0 where
  pub load_client : String → String → Option LoadError
  pub load_server : String → String → Option LoadError
  pub load_modifier : String → String → Option LoadError
  pub find_all : String → List String

-- A verdict, and the lines that were printed for it.
pub record Verdict (L : Type 0) : Type 0 where
  pub passed : Bool
  pub printed : List L

-- `strings.Contains`.
abbrev pub contains : String → String → Bool
contains s t = is_some (find? s t)

-- `msg += err.Error()` over the errors.
concat : String → List String → String
concat msg [] = msg
concat msg (e ∷ es) = concat (msg <> e) es

message : LoadError → String
unfolding concat
message (many es) = concat "" es
message (single e) = e

-- The loop over the matches leaves the last one.
last_match : String → List String → String
last_match msg [] = msg
last_match msg (m ∷ ms) = last_match m ms

-- The body that the three functions share: `kind` as printed, and the symbol that is looked up.
unfoldable pub check_plugin :
    (String → List String) → String → String → String → Option LoadError → Verdict String
unfolding message last_match
check_plugin find_all kind symbol name none = record {
  passed = true;
  printed = ("[OK] " <> kind <> "\t" <> name) ∷ [];
}
check_plugin find_all kind symbol name (some e) =
    let msg = message e in
    if contains msg ("symbol " <> symbol <> " not found")
    then record {
      passed = false;
      printed =
          ("[KO] " <> kind <> "\t" <> name <> ": The plugin does not contain a " <> symbol <> ".")
          ∷ [];
    }
    else record {
      passed = false;
      printed = ("[KO] " <> kind <> "\t" <> name <> ": " <> last_match msg (find_all msg)) ∷ [];
    }

module _ (t : Tools) (folder name : String) where
  unfoldable pub check_client_plugin : Verdict String
  check_client_plugin =
      check_plugin t.find_all "CLIENT" "ClientRegisterer" name (t.load_client folder name)

  unfoldable pub check_handler_plugin : Verdict String
  check_handler_plugin =
      check_plugin t.find_all "SERVER" "HandlerRegisterer" name (t.load_server folder name)

  unfoldable pub check_modifier_plugin : Verdict String
  check_modifier_plugin =
      check_plugin t.find_all "MODIFIER" "ModifierRegisterer" name (t.load_modifier folder name)

-- A plugin passes the check of its kind exactly when the loader returned no error.
pub check_plugin-passed_iff :
    (find_all : String → List String) (kind symbol name : String) (o : Option LoadError)
    → ((check_plugin find_all kind symbol name o).passed ≡ true) ↔ (o ≡ none)
unfolding check_plugin
check_plugin-passed_iff find_all kind symbol name o = ground arith
