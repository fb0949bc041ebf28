-- ===== src/NodeCommand/Root.antt =====
-- The root command of the node: cmd/veranatestd/cmd/root.go, the commands that initRootCmd of
-- cmd/veranatestd/cmd/commands.go adds to it, and RegisterIBC of app/ibc.go, whose modules it uses.
use veranatest.Prelude.{
  Bytes, Exec, List, Option, Outcome, [], ascii, bytes_eq, err, if◌then◌else◌, lift, none, ok,
  panicked, some, ◌>>=◌, ◌>>◌, ◌∷◌,
}
use veranatest.App.Startup.{IbcNames}
use veranatest.Sdk.Modules.{Names, or_panic}

-- The commands of the SDK, of ibc-go and of this repository that are added, by the functions that make
-- them, with the manager of the modules where they take it; `server_cmds` are those of
-- `server.AddCommandsWithStartCmdOptions`.
pub data Subcommand (BasicManager : Type 0) : Type 0 where
  init_cmd testnet_multi_node_cmd genutil_cmds : BasicManager → Subcommand BasicManager
  in_place_testnet_cmd debug_cmd config_cmd : Subcommand BasicManager
  pruning_cmd snapshot_cmd server_cmds status_cmd keys_cmds : Subcommand BasicManager
  wait_tx_cmd validator_cmd query_block_cmd query_txs_by_events_cmd : Subcommand BasicManager
  query_blocks_cmd query_tx_cmd query_block_results_cmd : Subcommand BasicManager
  sign_cmd sign_batch_cmd multi_sign_cmd multi_sign_batch_cmd validate_signatures_cmd :
      Subcommand BasicManager
  line_break_cmd broadcast_cmd encode_cmd decode_cmd simulate_cmd : Subcommand BasicManager

pub data Command (BasicManager : Type 0) : Type 0 where
  subcommand : Subcommand BasicManager → Command BasicManager
  command_group : Bytes → List (Subcommand BasicManager) → Command BasicManager

-- `queryCommand`
unfoldable pub query_command : {BasicManager : Type 0} → Command BasicManager
query_command = command_group (ascii "query") (
    wait_tx_cmd ∷ validator_cmd ∷ query_block_cmd ∷ query_txs_by_events_cmd ∷ query_blocks_cmd
    ∷ query_tx_cmd ∷ query_block_results_cmd ∷ [])

-- `txCommand`
unfoldable pub tx_command : {BasicManager : Type 0} → Command BasicManager
tx_command = command_group (ascii "tx") (
    sign_cmd ∷ sign_batch_cmd ∷ multi_sign_cmd ∷ multi_sign_batch_cmd ∷ validate_signatures_cmd
    ∷ line_break_cmd ∷ broadcast_cmd ∷ encode_cmd ∷ decode_cmd ∷ simulate_cmd ∷ [])

-- `initRootCmd`: the commands that it adds.
unfoldable pub init_root_cmd : {BasicManager : Type 0} → BasicManager → List (Command BasicManager)
unfolding query_command tx_command
init_root_cmd basic_manager =
    subcommand (init_cmd basic_manager)
    ∷ subcommand in_place_testnet_cmd
    ∷ subcommand (testnet_multi_node_cmd basic_manager)
    ∷ subcommand debug_cmd
    ∷ subcommand config_cmd
    ∷ subcommand pruning_cmd
    ∷ subcommand snapshot_cmd
    ∷ subcommand server_cmds
    ∷ subcommand status_cmd
    ∷ subcommand (genutil_cmds basic_manager)
    ∷ query_command
    ∷ tx_command
    ∷ subcommand keys_cmds
    ∷ []

-- What root.go calls of depinject, of the client's context, of its configuration and of autocli. The
-- state of a command is what the calls keep in it.
pub record ClientLibrary : Type 1 where
  pub ClientContext : Type 0
  pub CommandState : Type 0
  pub Flags : Type 0
  pub Module : Type 0
  pub BasicModule : Type 0
  pub Registry : Type 0
  pub RootCommand : Type 0
  pub with_cmd_context : CommandState → ClientContext → ClientContext
  pub with_viper : Bytes → ClientContext → ClientContext
  pub with_default_outputs : CommandState → CommandState
  pub flags_of : CommandState → Flags
  pub read_persistent_command_flags : ClientContext → Flags → Outcome ClientContext
  pub read_from_client_config : ClientContext → Outcome ClientContext
  pub set_cmd_client_context_handler : ClientContext → Exec CommandState (Unit {0})
  pub intercept_configs_pre_run_handler : Exec CommandState (Unit {0})
  -- ibc-go's modules, and `RegisterInterfaces` of those that have it
  pub ibc_module : Bytes → Module
  pub register_interfaces : Module → Option (Registry → Registry)
  -- `module.CoreAppModuleBasicAdaptor`
  pub core_app_module_basic_adaptor : Bytes → Module → BasicModule
  -- `autoCliOpts.EnhanceRootCommand` and the assembled command
  pub enhance_root_command :
      List (Command (List (Bytes × BasicModule))) → List (Bytes × Module) → Outcome RootCommand

-- `m[name] = v` of a map.
abbrev pub put_module : {A : Type 0} → Bytes → A → List (Bytes × A) → List (Bytes × A)
put_module name m [] = (name, m) ∷ []
put_module name m ((other, o) ∷ rest) =
    if bytes_eq other name then (name, m) ∷ rest else (other, o) ∷ put_module name m rest

module _ (lib : ClientLibrary) where
  -- `PersistentPreRunE`. The first assignment is to the captured variable, the later ones to a local
  -- one; the states are the captured context and the command.
  unfoldable pub persistent_pre_run : Bytes → Exec (lib.ClientContext × lib.CommandState) (Unit {0})
  persistent_pre_run name (captured, cmd) =
      let started = lib.with_default_outputs cmd in
      let client_ctx = lib.with_viper name (lib.with_cmd_context started captured) in
      let r =
        (do
          read ← lift (lib.read_persistent_command_flags client_ctx (lib.flags_of started))
          configured ← lift (lib.read_from_client_config read)
          lib.set_cmd_client_context_handler configured
          lib.intercept_configs_pre_run_handler)
          started in
      (r.0, (client_ctx, r.1))

  -- The loop of `RegisterIBC`.
  unfoldable pub register_all : List (Bytes × lib.Module) → lib.Registry → lib.Registry
  register_all [] registry = registry
  register_all ((name, m) ∷ rest) registry = elim (lib.register_interfaces m) [
    | some register ↦ register_all rest (register registry)
    | none ↦ register_all rest registry
  ]

  -- `RegisterIBC`
  unfoldable pub register_ibc :
      Names → IbcNames → lib.Registry → List (Bytes × lib.Module) × lib.Registry
  unfolding register_all
  register_ibc n ibc registry =
      let modules =
        (n.ibc, lib.ibc_module n.ibc)
        ∷ (n.ibc_transfer, lib.ibc_module n.ibc_transfer)
        ∷ (n.ica, lib.ibc_module n.ica)
        ∷ (ibc.tendermint, lib.ibc_module ibc.tendermint)
        ∷ (ibc.solo_machine, lib.ibc_module ibc.solo_machine)
        ∷ [] in
      (modules, register_all modules registry)

  -- The loop over the modules of ibc-go; the manager takes each of them through the adaptor, and
  -- autocli takes it as it is.
  unfoldable pub add_modules :
      List (Bytes × lib.Module)
      → List (Bytes × lib.BasicModule) × List (Bytes × lib.Module)
      → List (Bytes × lib.BasicModule) × List (Bytes × lib.Module)
  add_modules [] s = s
  add_modules ((name, m) ∷ rest) (module_basic_manager, auto_cli) = add_modules rest (
    put_module name (lib.core_app_module_basic_adaptor name m) module_basic_manager,
    put_module name m auto_cli,
  )

  -- `NewRootCmd`, from what `depinject.Inject` gives: the modules of the manager and of autocli, and
  -- the registry of the context's codec.
  unfoldable pub new_root_cmd :
      Names
      → IbcNames
      → Outcome ((List (Bytes × lib.BasicModule) × List (Bytes × lib.Module)) × lib.Registry)
      → Outcome lib.RootCommand
  unfolding register_ibc add_modules init_root_cmd
  new_root_cmd n ibc (ok (modules, registry)) =
      let added = add_modules (register_ibc n ibc registry).0 modules in
      or_panic (lib.enhance_root_command (init_root_cmd added.0) added.1)
  new_root_cmd n ibc (err e) = panicked
  new_root_cmd n ibc panicked = panicked
