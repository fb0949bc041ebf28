-- ===== src/App/Config.antt =====
-- app/app_config.go: the modules of the app with their configurations, and the lists of names that
-- say in which order they run. `appconfig.Compose` and `WrapAny` only encode it.
use veranatest.TrustDeposit.Types.{td_module_name, verana_pool_account}
use veranatest.Sdk.Modules.{Names}
use veranatest.Prelude.{Bool, Bytes, List, [], ascii, true, ℕ, ◌∷◌}

abbrev pub app_name : Bytes
app_name = ascii "veranatest"

abbrev pub account_address_prefix : Bytes
account_address_prefix = ascii "cosmos"

abbrev pub registry_module_name : Bytes
registry_module_name = ascii "validatorregistry"

pub record ModuleAccountPermission : Type 0 where
  pub account : Bytes
  pub permissions : List Bytes

-- The fields that the app sets of the configurations of x/runtime and x/auth.
pub record RuntimeModule : Type 0 where
  pub app_name : Bytes
  pub pre_blockers : List Bytes
  pub begin_blockers : List Bytes
  pub end_blockers : List Bytes
  pub override_store_keys : List (Bytes × Bytes)
  pub init_genesis : List Bytes
  pub export_genesis : List Bytes

pub record AuthModule : Type 0 where
  pub bech32_prefix : Bytes
  pub module_account_permissions : List ModuleAccountPermission
  pub enable_unordered_transactions : Bool

-- A module's configuration: for x/bank the blocked accounts, for x/group the seconds of execution
-- and the length of metadata, for the registry the authority, and `no_fields_set` where no field is set.
pub data Config : Type 0 where
  runtime_config : RuntimeModule → Config
  auth_config : AuthModule → Config
  bank_config : List Bytes → Config
  group_config : ℕ → ℕ → Config
  registry_config : Bytes → Config
  no_fields_set : Config

pub record ModuleConfig : Type 0 where
  pub name : Bytes
  pub config : Config

module _ (n : Names) where
  unfoldable pub module_acc_perms : List ModuleAccountPermission
  module_acc_perms =
      record { account = n.fee_collector_name; permissions = [] }
      ∷ record { account = n.distr; permissions = [] }
      ∷ record { account = n.mint; permissions = n.minter ∷ [] }
      ∷ record { account = n.bonded_pool_name; permissions = n.burner ∷ n.staking ∷ [] }
      ∷ record { account = n.not_bonded_pool_name; permissions = n.burner ∷ n.staking ∷ [] }
      ∷ record { account = n.gov; permissions = n.burner ∷ [] }
      ∷ record { account = n.nft; permissions = [] }
      ∷ record { account = n.ibc_transfer; permissions = n.minter ∷ n.burner ∷ [] }
      ∷ record { account = n.ica; permissions = [] }
      ∷ record { account = n.protocolpool; permissions = [] }
      ∷ record { account = n.protocol_pool_escrow_account; permissions = [] }
      ∷ record { account = td_module_name; permissions = [] }
      ∷ record { account = verana_pool_account; permissions = [] }
      ∷ []

  -- The blocked accounts.
  unfoldable pub block_acc_addrs : List Bytes
  block_acc_addrs =
      n.fee_collector_name ∷ n.distr ∷ n.mint ∷ n.bonded_pool_name ∷ n.not_bonded_pool_name ∷ n.nft
      ∷ []

  unfoldable pub pre_blockers : List Bytes
  pre_blockers = n.upgrade ∷ n.auth ∷ []

  unfoldable pub begin_blockers : List Bytes
  begin_blockers =
      n.mint ∷ n.distr ∷ n.slashing ∷ n.evidence ∷ n.staking ∷ n.authz ∷ n.epochs ∷ n.protocolpool
      ∷ n.ibc ∷ td_module_name ∷ registry_module_name ∷ []

  unfoldable pub end_blockers : List Bytes
  end_blockers =
      n.gov ∷ n.staking ∷ n.feegrant ∷ n.group ∷ n.protocolpool ∷ td_module_name
      ∷ registry_module_name ∷ []

  unfoldable pub init_genesis_order : List Bytes
  init_genesis_order =
      n.consensus ∷ n.auth ∷ n.bank ∷ n.distr ∷ n.staking ∷ n.slashing ∷ n.gov ∷ n.mint
      ∷ registry_module_name ∷ n.genutil ∷ n.evidence ∷ n.authz ∷ n.feegrant ∷ n.vesting ∷ n.nft
      ∷ n.group ∷ n.upgrade ∷ n.circuit ∷ n.epochs ∷ n.protocolpool ∷ n.ibc ∷ n.ibc_transfer ∷ n.ica
      ∷ td_module_name ∷ []

  unfoldable pub export_genesis_order : List Bytes
  export_genesis_order =
      n.consensus ∷ n.auth ∷ n.bank ∷ n.distr ∷ n.staking ∷ n.slashing ∷ n.gov ∷ n.mint ∷ n.genutil
      ∷ n.evidence ∷ n.authz ∷ n.feegrant ∷ n.vesting ∷ n.nft ∷ n.group ∷ n.upgrade ∷ n.circuit
      ∷ n.epochs ∷ n.protocolpool ∷ n.ibc ∷ n.ibc_transfer ∷ n.ica ∷ td_module_name
      ∷ registry_module_name ∷ []

  unfoldable pub runtime_module : RuntimeModule
  unfolding pre_blockers begin_blockers end_blockers init_genesis_order export_genesis_order
  runtime_module = record {
    app_name = app_name;
    pre_blockers = pre_blockers;
    begin_blockers = begin_blockers;
    end_blockers = end_blockers;
    override_store_keys = (n.auth, ascii "acc") ∷ [];
    init_genesis = init_genesis_order;
    export_genesis = export_genesis_order;
  }

  unfoldable pub auth_module : AuthModule
  unfolding module_acc_perms
  auth_module = record {
    bech32_prefix = account_address_prefix;
    module_account_permissions = module_acc_perms;
    enable_unordered_transactions = true;
  }

  -- `appConfig`
  unfoldable pub app_modules : List ModuleConfig
  unfolding runtime_module auth_module block_acc_addrs
  app_modules =
      record { name = n.runtime; config = runtime_config runtime_module }
      ∷ record { name = n.auth; config = auth_config auth_module }
      ∷ record { name = n.vesting; config = no_fields_set }
      ∷ record { name = n.bank; config = bank_config block_acc_addrs }
      ∷ record { name = n.staking; config = no_fields_set }
      ∷ record { name = n.slashing; config = no_fields_set }
      ∷ record { name = ascii "tx"; config = no_fields_set }
      ∷ record { name = n.genutil; config = no_fields_set }
      ∷ record { name = n.authz; config = no_fields_set }
      ∷ record { name = n.upgrade; config = no_fields_set }
      ∷ record { name = n.distr; config = no_fields_set }
      ∷ record { name = n.evidence; config = no_fields_set }
      ∷ record { name = n.mint; config = no_fields_set }
      ∷ record { name = n.group; config = group_config 1_209_600 255 }
      ∷ record { name = n.nft; config = no_fields_set }
      ∷ record { name = n.feegrant; config = no_fields_set }
      ∷ record { name = n.gov; config = no_fields_set }
      ∷ record { name = n.consensus; config = no_fields_set }
      ∷ record { name = n.circuit; config = no_fields_set }
      ∷ record { name = n.params; config = no_fields_set }
      ∷ record { name = n.epochs; config = no_fields_set }
      ∷ record { name = n.protocolpool; config = no_fields_set }
      ∷ record { name = td_module_name; config = no_fields_set }
      ∷ record {
        name = registry_module_name;
        config =
            registry_config
              (ascii "cosmos1afk9zr2hn2jsac63h4hm60vl9z3e5u69gndzf7c99cqge3vzwjzsfwkgpd");
      }
      ∷ []
