-- ===== src/Plugin/Flags.antt =====
-- plugin.go: the command `test-plugin` with its flags.
use pucora_ce.Base.{String, Bool, false, List, [], ◌∷◌, ◌++◌, ◌≡◌, ap, ◌∙◌, sym, append_assoc}
use pucora_ce.Base.{append-nil}

-- The variables that the flags of this file set.
pub data Target : Type 0 where
  server_expected client_expected modifier_expected : Target

-- What is given of the `cobra.Command`, which runs `testPluginFunc`.
pub record CobraCommand : Type 0 where
  pub use_line : String
  pub short : String
  pub example : String

-- The command line library: `cmd.BoolFlagBuilder`, `cmd.NewCommand` and `AddFlag`.
pub record CommandLibrary : Type 1 where
  pub FlagBuilder : Type 0
  pub Command : Type 0
  pub bool_flag_builder : Target → String → String → Bool → String → FlagBuilder
  pub new_command : CobraCommand → List FlagBuilder → Command
  pub add_flag : FlagBuilder → Command → Command

-- `testPluginCmd`
pub test_plugin_cmd : CobraCommand
test_plugin_cmd = record {
  use_line = "test-plugin [flags] [artifacts]";
  short = "Tests that one or more plugins are loadable into Pucora.";
  example = "pucora test-plugin -scm ./plugins/my_plugin.so ./plugins/my_other_plugin.so";
}

module _ (L : CommandLibrary) where
  pub server_expected_flag : L.FlagBuilder
  server_expected_flag =
      L.bool_flag_builder server_expected "server" "s" false
        "The artifact should contain a Server Plugin."

  pub client_expected_flag : L.FlagBuilder
  client_expected_flag =
      L.bool_flag_builder client_expected "client" "c" false
        "The artifact should contain a Client Plugin."

  pub modifier_expected_flag : L.FlagBuilder
  modifier_expected_flag =
      L.bool_flag_builder modifier_expected "modifier" "m" false
        "The artifact should contain a Req/Resp Modifier Plugin."

  -- The flags in the order in which `NewTestPluginCmd` gives them.
  flags_expected : List L.FlagBuilder
  unfolding server_expected_flag client_expected_flag modifier_expected_flag
  flags_expected = server_expected_flag ∷ client_expected_flag ∷ modifier_expected_flag ∷ []

  -- `NewTestPluginCmd`
  pub new_test_plugin_cmd : L.Command
  unfolding flags_expected test_plugin_cmd
  new_test_plugin_cmd = L.new_command test_plugin_cmd flags_expected

  add_flags : List L.FlagBuilder → L.Command → L.Command
  add_flags [] c = c
  add_flags (f ∷ fs) c = add_flags fs (L.add_flag f c)

  -- `NewTestPluginCmdWithArgs`
  pub new_test_plugin_cmd_with_args : List L.FlagBuilder → L.Command
  unfolding add_flags
  new_test_plugin_cmd_with_args flags = add_flags flags new_test_plugin_cmd

  module _ (flags : L.Command → List L.FlagBuilder) where
    add_flags-flags :
        ((f : L.FlagBuilder) (c : L.Command) → flags (L.add_flag f c) ≡ flags c ++ (f ∷ []))
        → (fs : List L.FlagBuilder) (c : L.Command) → flags (add_flags fs c) ≡ flags c ++ fs
    unfolding add_flags
    add_flags-flags adds [] c = sym (append-nil (flags c))
    add_flags-flags adds (f ∷ fs) c =
        add_flags-flags adds fs (L.add_flag f c)
        ∙ ap (λ gs. gs ++ fs) (adds f c)
        ∙ append_assoc (flags c) (f ∷ []) fs

    -- Where a command has the flags that it was made with and those that were added, in their order,
    -- those that are given come after the three of the command, in their order.
    new_test_plugin_cmd_with_args-flags :
        ((f : L.FlagBuilder) (c : L.Command) → flags (L.add_flag f c) ≡ flags c ++ (f ∷ []))
        → ((c : CobraCommand) (fs : List L.FlagBuilder) → flags (L.new_command c fs) ≡ fs)
        → (fs : List L.FlagBuilder)
        → flags (new_test_plugin_cmd_with_args fs) ≡ flags_expected ++ fs
    unfolding new_test_plugin_cmd_with_args new_test_plugin_cmd
    new_test_plugin_cmd_with_args-flags adds makes fs =
        add_flags-flags adds fs new_test_plugin_cmd
        ∙ ap (λ gs. gs ++ fs) (makes test_plugin_cmd flags_expected)
