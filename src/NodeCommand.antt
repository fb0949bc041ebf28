-- ===== src/NodeCommand.antt =====
-- The commands of the node: newApp and appExport of cmd/veranatestd/cmd/commands.go. The state is
-- the app that is made.
pub mod Root
pub mod Modules
mod Exporting
mod HeightApp
mod Tests
use veranatest.Prelude.{
  Bool, Bytes, Error, Exec, List, [], false, gets, guard, if◌then◌else◌, is_empty, not, true, ◌==◌,
  ◌>>◌,
}
use veranatest.Prelude.Int.{negsuc, pos, ℤ}
use veranatest.Ante.{Env}
use veranatest.App.Startup.{Builder, IbcNames, new_app}
use veranatest.Export.{Application, ExportedApp, export_app_state_and_validators}
use veranatest.Sdk.Modules.{Names}
use veranatest.Sdk.Staking.{Keepers}
use veranatest.Testnets.InPlace.{Value, text}

-- What the two functions call of viper, of baseapp and of the app. `home` is `appOpts.Get` of the flag
-- of the home directory, `is_viper` whether the options are a `*viper.Viper`.
pub record Node {env : Env} (c : Builder env) (k : Keepers) : Type 0 where
  pub home : c.AppOptions → Value
  pub is_viper : c.AppOptions → Bool
  pub default_baseapp_options : c.AppOptions → List c.BaseAppOption
  pub load_height : ℤ → Exec c.App (Unit {0})
  pub last_block_height : c.App → ℤ
  pub stores : c.App → k.Stores

-- `homePath, ok := value.(string)`, with `ok && homePath != ""`
unfoldable pub has_home : Value → Bool
has_home (text home_path) = not (is_empty home_path)
has_home _ = false

-- `height == -1`
unfoldable pub is_latest : ℤ → Bool
is_latest (pos n) = false
is_latest (negsuc n) = n == 0

module _ {env : Env} (c : Builder env) (n : Names) (ibc : IbcNames) {k : Keepers}
    (node : Node c k) where
  -- `newApp`
  unfoldable pub new_server_app : c.AppOptions → Exec c.App (Unit {0})
  unfolding new_app
  new_server_app app_opts =
      new_app env c n ibc true app_opts (node.default_baseapp_options app_opts)

  -- The app at a height, or at the last one.
  unfoldable pub load_app : ℤ → c.AppOptions → Exec c.App (Unit {0})
  unfolding is_latest new_app
  load_app height app_opts =
      if is_latest height
      then new_app env c n ibc true app_opts []
      else (do new_app env c n ibc false app_opts []; node.load_height height)

  module _ (app : Application k) where
    -- The export of the app that was made.
    abbrev pub at_app : c.App → Application k
    at_app made = record app { last_block_height = node.last_block_height made }

    -- `appExport`. The process ends after it, so the stores that the export leaves are left out.
    unfoldable pub app_export :
        ℤ
        → Bool
        → List Bytes
        → c.AppOptions
        → List Bytes
        → Exec c.App (ExportedApp app.ValidatorSet app.ConsensusParams)
    unfolding has_home load_app export_app_state_and_validators
    app_export height for_zero_height jail_allowed_addrs app_opts modules_to_export = do
      guard (has_home (node.home app_opts)) Error.missing_home
      guard (node.is_viper app_opts) Error.wrong_options
      load_app height app_opts
      gets (λ made.
          (export_app_state_and_validators k (at_app made) for_zero_height jail_allowed_addrs
            modules_to_export (node.stores made)).0)
