-- ===== src/App/Startup.antt =====
-- `New` of app/app.go and `registerIBCModules` of app/ibc.go: how the app is put together. The app
-- itself is a state that the calls of the SDK and of ibc-go change.
use veranatest.Export.{must, procedure}
use veranatest.Export.Rules.{NeverErrs, NeverErrs-bind, NeverErrs-must, NeverErrs-procedure}
use veranatest.Ante.{Env, SdkDecorators, new_ante_handler}
use veranatest.Sdk.Modules.{Names}
use veranatest.Sdk.Tx.{AnteHandler}
use veranatest.Prelude.{Bool, Bytes, Exec, List, Option, [], gets, ok, ◌++◌, ◌>>=◌, ◌>>◌, ◌∷◌}

-- The names of ibc-go that app/ibc.go uses besides the names of modules.
pub record IbcNames : Type 0 where
  pub ibc_store_key : Bytes
  pub transfer_store_key : Bytes
  pub ica_host_store_key : Bytes
  pub ica_controller_store_key : Bytes
  pub ica_controller_sub_module : Bytes
  pub ica_host_sub_module : Bytes
  pub transfer_port_id : Bytes
  pub tendermint : Bytes
  pub solo_machine : Bytes

-- What `New` and `registerIBCModules` call. Each constructor of a keeper takes the app, where it finds
-- the keepers that are there, and puts the new keeper into it.
pub record Builder (env : Env) : Type 1 where
  pub App : Type 0
  pub AppOptions : Type 0
  pub BaseAppOption : Type 0
  pub Request : Type 0
  pub Response : Type 0
  -- `depinject.Inject` of the app's configuration with the options
  pub inject : AppOptions → Exec App (Unit {0})
  pub set_optimistic_execution : BaseAppOption
  -- `none` is a panic
  pub build_app : List BaseAppOption → App → Option App
  pub has_bank_keeper : App → Bool
  pub has_sign_mode_handler : App → Bool
  pub sdk_decorators : App → SdkDecorators env
  pub set_ante_handler : AnteHandler env.runtime.Context env.runtime.Stores → App → App
  pub simulation_manager : App → App
  pub register_store_decoders : App → App
  pub set_module_version_map : Exec App (Unit {0})
  pub app_init_chainer : Request → Exec App Response
  pub set_init_chainer : (Request → Exec App Response) → App → App
  pub load : Bool → Exec App (Unit {0})
  -- ibc
  pub register_stores : List Bytes → Exec App (Unit {0})
  pub set_key_table : Bytes → App → App
  pub gov_module_addr : App → Bytes
  pub new_ibc_keeper : Bytes → App → App
  pub new_transfer_keeper : Bytes → App → App
  pub new_ica_host_keeper : Bytes → App → App
  pub new_ica_controller_keeper : Bytes → App → App
  pub set_router : List Bytes → App → App
  pub set_router_v2 : List Bytes → App → App
  pub add_light_client : Bytes → App → App
  pub register_modules : List Bytes → Exec App (Unit {0})

module _ (env : Env) (c : Builder env) where
  unfoldable pub updates : (c.App → c.App) → Exec c.App (Unit {0})
  updates f app = (ok tt, f app)

  -- The init chainer that `New` sets.
  unfoldable pub init_chain : c.Request → Exec c.App c.Response
  init_chain req = do c.set_module_version_map; c.app_init_chainer req

  module _ (n : Names) (ibc : IbcNames) where
    -- The keepers, each with the address of the module account of x/gov.
    unfoldable pub create_ibc_keepers : Exec c.App (Unit {0})
    unfolding updates
    create_ibc_keepers = do
      gov_module_addr ← gets (λ app. ok (c.gov_module_addr app))
      updates (c.new_ibc_keeper gov_module_addr)
      updates (c.new_transfer_keeper gov_module_addr)
      updates (c.new_ica_host_keeper gov_module_addr)
      updates (c.new_ica_controller_keeper gov_module_addr)

    -- The routes of the two routers, and the light clients.
    unfoldable pub set_ibc_routes : Exec c.App (Unit {0})
    unfolding updates
    set_ibc_routes = do
      updates (
          c.set_router
            (n.ibc_transfer ∷ ibc.ica_controller_sub_module ∷ ibc.ica_host_sub_module ∷ []))
      updates (c.set_router_v2 (ibc.transfer_port_id ∷ []))
      updates (c.add_light_client ibc.tendermint)
      updates (c.add_light_client ibc.solo_machine)

    -- `registerIBCModules`; a module is registered under its name.
    unfoldable pub register_ibc_modules : Exec c.App (Unit {0})
    unfolding updates create_ibc_keepers set_ibc_routes
    register_ibc_modules = do
      c.register_stores (
          ibc.ibc_store_key ∷ ibc.transfer_store_key ∷ ibc.ica_host_store_key
          ∷ ibc.ica_controller_store_key ∷ [])
      updates (c.set_key_table n.ibc)
      updates (c.set_key_table n.ibc_transfer)
      updates (c.set_key_table ibc.ica_controller_sub_module)
      updates (c.set_key_table ibc.ica_host_sub_module)
      create_ibc_keepers
      set_ibc_routes
      c.register_modules (n.ibc ∷ n.ibc_transfer ∷ n.ica ∷ ibc.tendermint ∷ ibc.solo_machine ∷ [])

    -- `New`, whose result is the state.
    unfoldable pub new_app : Bool → c.AppOptions → List c.BaseAppOption → Exec c.App (Unit {0})
    unfolding updates init_chain register_ibc_modules
    new_app load_latest app_opts base_app_options = do
      must (c.inject app_opts)
      procedure (c.build_app (base_app_options ++ (c.set_optimistic_execution ∷ [])))
      ante_handler ← must (
          gets (λ app.
            new_ante_handler env (c.has_bank_keeper app) (c.has_sign_mode_handler app)
              (c.sdk_decorators app)))
      updates (c.set_ante_handler ante_handler)
      must register_ibc_modules
      updates c.simulation_manager
      updates c.register_store_decoders
      updates (c.set_init_chainer init_chain)
      must (c.load load_latest)

    NeverErrs-updates : (f : c.App → c.App) → NeverErrs (updates f)
    unfolding updates
    NeverErrs-updates f = record { at = λ s t e h. cc }

    -- `New` returns no error: it makes the app or panics.
    pub new_app-NeverErrs :
        (load_latest : Bool) (app_opts : c.AppOptions) (options : List c.BaseAppOption)
        → NeverErrs (new_app load_latest app_opts options)
    unfolding new_app
    new_app-NeverErrs load_latest app_opts options = NeverErrs-bind _ _ (NeverErrs-must _) λ u1.
        NeverErrs-bind _ _ (NeverErrs-procedure _) λ u2.
          NeverErrs-bind _ _ (NeverErrs-must _) λ handler.
            NeverErrs-bind _ _ (NeverErrs-updates _) λ u3.
              NeverErrs-bind _ _ (NeverErrs-must _) λ u4.
                NeverErrs-bind _ _ (NeverErrs-updates _) λ u5.
                  NeverErrs-bind _ _ (NeverErrs-updates _)
                    λ u6. NeverErrs-bind _ _ (NeverErrs-updates _) λ u7. NeverErrs-must _
