-- ===== src/NodeCommand/HeightApp.antt =====
-- An app whose state is its height, for the tests of the node's commands.
use veranatest.Sdk.Addresses.{AddressCodec}
use veranatest.Prelude.{
  Bool, Exec, List, [], ascii, bytes_eq, bytes_eq_iff, if◌then◌else◌, ok, refl, some, true, ℕ, ◌∷◌,
  ◌≡◌,
}
use veranatest.Prelude.Int.{pos, ℤ}
use veranatest.Ante.{Env}
use veranatest.App.Startup.{Builder}
use veranatest.Registry.Types.{Keeper, Params, State, Validator}
use veranatest.Sdk.Group.{Proposal}
use veranatest.Sdk.Instances.Groups.{group_list}
use veranatest.Sdk.Instances.{list_map, option_item}
use veranatest.Testnets.InPlace.{Value}
use veranatest.Sdk.Tx.{AnteDecorator, AnteHandler, Tx}

abbrev codec : AddressCodec
codec = record {
  string_to_bytes = ok;
  bytes_to_string = ok;
  val_address_from_bech32 = ok;
  acc_address_from_bech32 = ok;
  equals = bytes_eq;
  equals_iff = bytes_eq_iff;
}

abbrev keeper : Keeper
keeper = record {
  address_codec = codec;
  authority = ascii "gov";
  params = option_item Params;
  validator = list_map Validator;
}

abbrev Stores : Type 0
Stores = List Proposal × State keeper

pub chain_decorators : List (AnteDecorator ℕ Stores) → AnteHandler ℕ Stores
chain_decorators [] ctx tx simulate s = (ok ctx, s)
chain_decorators (d ∷ ds) ctx tx simulate s = d ctx tx simulate (chain_decorators ds) s

pub chain_decorators_lem :
    (d : AnteDecorator ℕ Stores) (ds : List (AnteDecorator ℕ Stores)) (ctx : ℕ) (tx : Tx)
    (simulate : Bool) (s : Stores)
    → chain_decorators (d ∷ ds) ctx tx simulate s ≡ d ctx tx simulate (chain_decorators ds) s
unfolding chain_decorators
chain_decorators_lem d ds ctx tx simulate s = refl

abbrev pub height_env : Env
height_env = record {
  runtime = record {
    Context = ℕ;
    Stores = Stores;
    block_time = λ ctx. ctx;
    chain_ante_decorators = chain_decorators;
    chain_cons = chain_decorators_lem;
  };
  group_keeper = group_list;
  registry_keeper = keeper;
  groups = λ s. s.0;
  registry = λ s. s.1;
}

pub pass_on : AnteDecorator ℕ Stores
pass_on ctx tx simulate next s = next ctx tx simulate s

abbrev keep : {A : Type 0} → A → ℤ → ℤ
keep a app = app

abbrev done : {A : Type 0} → A → Exec ℤ (Unit {0})
done a app = (ok tt, app)

-- The state is the height of the app; the last one is 41.
abbrev pub height_app : Builder height_env
height_app = record {
  App = ℤ;
  AppOptions = Value;
  BaseAppOption = Unit {0};
  Request = Unit {0};
  Response = Unit {0};
  inject = done;
  set_optimistic_execution = tt;
  build_app = λ options app. some app;
  has_bank_keeper = λ app. true;
  has_sign_mode_handler = λ app. true;
  sdk_decorators = λ app. record {
    set_up_context = pass_on;
    validate_basic = pass_on;
    deduct_fee = pass_on;
    increment_sequence = pass_on;
  };
  set_ante_handler = keep;
  simulation_manager = λ app. app;
  register_store_decoders = λ app. app;
  set_module_version_map = done tt;
  app_init_chainer = done;
  set_init_chainer = keep;
  load = λ latest app. (ok tt, if latest then pos 41 else app);
  register_stores = done;
  set_key_table = keep;
  gov_module_addr = λ app. ascii "gov";
  new_ibc_keeper = keep;
  new_transfer_keeper = keep;
  new_ica_host_keeper = keep;
  new_ica_controller_keeper = keep;
  set_router = keep;
  set_router_v2 = keep;
  add_light_client = keep;
  register_modules = done;
}
