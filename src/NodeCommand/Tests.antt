-- ===== src/NodeCommand/Tests.antt =====
-- Exports of an app whose state is its height, and runs of the root command.
use veranatest.NodeCommand.HeightApp.{height_app}
use veranatest.Sdk.Instances.Naming.{sdk_names}
use veranatest.Prelude.{
  Bytes, Error, List, [], ascii, bytes_eq, err, false, gets, guard, if◌then◌else◌, is_empty, lift,
  ok, pure, refl, some, suc, true, ℕ, ◌>>=◌, ◌∷◌, ◌≡◌,
}
use veranatest.Prelude.Int.{leb_ℤ, negsuc, pos}
use veranatest.Ante.{new_ante_handler}
use veranatest.App.Startup.{
  IbcNames, create_ibc_keepers, new_app, register_ibc_modules, set_ibc_routes, updates,
}
use veranatest.Export.{
  Application, ExportedApp, export_app_state, export_app_state_and_validators, must, next_height,
  procedure,
}
use veranatest.NodeCommand.{Node, app_export, has_home, is_latest, load_app}
use veranatest.NodeCommand.Root.{
  ClientLibrary, Command, add_modules, init_root_cmd, new_root_cmd, persistent_pre_run,
  register_all, register_ibc,
}
use veranatest.NodeCommand.Exporting.{
  ExportsApp, HasHome, MadeAt, Refused, app_export_err, app_export_ok,
}
use veranatest.Sdk.Instances.Stakings.{staking_list}
use veranatest.Testnets.InPlace.{Value, text}

abbrev node : Node height_app staking_list
node = record {
  home = λ opts. opts;
  is_viper = λ opts. true;
  default_baseapp_options = λ opts. [];
  load_height =
      λ height app. if leb_ℤ height (pos 41) then (ok tt, height) else (err (Error.foreign 1), app);
  last_block_height = λ app. app;
  stores = λ app. [];
}

abbrev application : Application staking_list
application = record {
  ModuleStates = List Bytes;
  ValidatorSet = List Bytes;
  ConsensusParams = Unit;
  last_block_height = pos 0;
  new_context = λ h. h;
  export_genesis_for_modules = λ c modules s. ok modules;
  marshal_indent = λ states. ok (ascii "{}");
  write_validators = λ c s. ok [];
  get_consensus_params = λ c s. tt;
}

abbrev ibc : IbcNames
ibc = record {
  ibc_store_key = ascii "ibc";
  transfer_store_key = ascii "transfer";
  ica_host_store_key = ascii "icahost";
  ica_controller_store_key = ascii "icacontroller";
  ica_controller_sub_module = ascii "icacontroller";
  ica_host_sub_module = ascii "icahost";
  transfer_port_id = ascii "transfer";
  tendermint = ascii "07-tendermint";
  solo_machine = ascii "06-solomachine";
}

abbrev home : Value
home = text (ascii "/home")

abbrev exported : ExportedApp (List Bytes) (Unit {0})
exported = record {
  app_state = ascii "{}";
  validators = [];
  height = pos 42;
  consensus_params = tt;
}

run_latest :
    app_export height_app sdk_names ibc node application (negsuc 0) false [] home [] (pos 0)
    ≡ (ok exported, pos 41)
unfolding app_export has_home load_app is_latest new_app export_app_state_and_validators
    export_app_state must procedure updates create_ibc_keepers set_ibc_routes register_ibc_modules
    new_ante_handler next_height ◌>>=◌ gets guard lift pure
run_latest = refl

run_no_home :
    app_export height_app sdk_names ibc node application (pos 7) false [] (text []) [] (pos 0)
    ≡ (err Error.missing_home, pos 0)
unfolding app_export has_home ◌>>=◌ guard
run_no_home = refl

-- No such block.
run_too_high :
    app_export height_app sdk_names ibc node application (pos 50) false [] home [] (pos 0)
    ≡ (err (Error.foreign 1), pos 0)
unfolding app_export has_home load_app is_latest new_app must procedure updates create_ibc_keepers
    set_ibc_routes register_ibc_modules new_ante_handler ◌>>=◌ gets guard lift pure
run_too_high = refl

app_export_ok_example :
    HasHome home
    × (true ≡ true)
    × MadeAt height_app sdk_names ibc node application (negsuc 0) home (pos 0) (pos 41)
    × ExportsApp height_app sdk_names ibc node application (pos 41) false [] exported
app_export_ok_example =
    app_export_ok height_app sdk_names ibc node application (negsuc 0) false [] home [] (pos 0)
      (pos 41) exported run_latest

app_export_err_example :
    Refused height_app sdk_names ibc node application (pos 50) home [] (pos 0) (Error.foreign 1)
app_export_err_example =
    app_export_err height_app sdk_names ibc node application (pos 50) false [] home [] (pos 0)
      (pos 0) (Error.foreign 1) run_too_high

-- A client whose modules are their names, and whose registry counts the registrations.
abbrev client : ClientLibrary
client = record {
  ClientContext = Bytes;
  CommandState = List Bytes;
  Flags = Unit {0};
  Module = Bytes;
  BasicModule = Bytes × Bytes;
  Registry = ℕ;
  RootCommand = List (Command (List (Bytes × (Bytes × Bytes))));
  with_cmd_context = λ cmd ctx. ctx;
  with_viper = λ name ctx. name;
  with_default_outputs = λ cmd. cmd;
  flags_of = λ cmd. tt;
  read_persistent_command_flags = λ ctx flags. ok ctx;
  read_from_client_config = λ ctx. if is_empty ctx then err (Error.foreign 2) else ok ctx;
  set_cmd_client_context_handler = λ ctx cmd. (ok tt, ctx ∷ cmd);
  intercept_configs_pre_run_handler = λ cmd. (ok tt, cmd);
  ibc_module = λ name. name;
  register_interfaces = λ m. some (λ n. suc n);
  core_app_module_basic_adaptor = λ name m. (name, m);
  enhance_root_command = λ commands modules. ok commands;
}

run_pre_run :
    persistent_pre_run client (ascii "veranatest") ([], [])
    ≡ (ok tt, (ascii "veranatest", ascii "veranatest" ∷ []))
unfolding persistent_pre_run ◌>>=◌ lift
run_pre_run = refl

-- What the manager has after the loop over the modules of ibc-go.
abbrev adapted : Bytes → Bytes × (Bytes × Bytes)
adapted name = (name, (name, name))

abbrev manager : List (Bytes × (Bytes × Bytes))
manager =
    adapted (ascii "bank")
    ∷ adapted sdk_names.ibc
    ∷ adapted sdk_names.ibc_transfer
    ∷ adapted sdk_names.ica
    ∷ adapted ibc.tendermint
    ∷ adapted ibc.solo_machine
    ∷ []

run_root :
    new_root_cmd client sdk_names ibc (ok ((adapted (ascii "bank") ∷ [], []), 0))
    ≡ ok (init_root_cmd manager)
unfolding new_root_cmd add_modules register_ibc bytes_eq
run_root = refl

run_register : (register_ibc client sdk_names ibc 0).1 ≡ 5
unfolding register_ibc register_all
run_register = refl
