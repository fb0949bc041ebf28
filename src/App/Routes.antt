-- ===== src/App/Routes.antt =====
-- The start of the package app, the routes of its API and two of its getters: app/config.go, and
-- init, RegisterAPIRoutes, GetSubspace and GetKey of app/app.go.
use veranatest.Sdk.Modules.{or_panic}
use veranatest.Prelude.{Bool, Bytes, Exec, Option, Outcome, ascii, err, ok, panicked, ℕ, ◌++◌, ◌>>◌}
use veranatest.Export.{must}
use veranatest.App.Config.{account_address_prefix, app_name}

-- `sdk.Config`; its methods may panic.
pub record ConfigMethods : Type 1 where
  pub Config : Type 0
  pub set_coin_type : ℕ → Exec Config (Unit {0})
  pub set_bech32_prefix_for_account : Bytes → Bytes → Exec Config (Unit {0})
  pub set_bech32_prefix_for_validator : Bytes → Bytes → Exec Config (Unit {0})
  pub set_bech32_prefix_for_consensus_node : Bytes → Bytes → Exec Config (Unit {0})
  pub seal : Exec Config (Unit {0})

abbrev pub chain_coin_type : ℕ
chain_coin_type = 118

-- `init` of app/config.go
unfoldable pub init_config : (c : ConfigMethods) → Exec c.Config (Unit {0})
init_config c = do
  let account_pub_key_prefix = account_address_prefix ++ ascii "pub"
  let validator_address_prefix = account_address_prefix ++ ascii "valoper"
  let validator_pub_key_prefix = account_address_prefix ++ ascii "valoperpub"
  let cons_node_address_prefix = account_address_prefix ++ ascii "valcons"
  let cons_node_pub_key_prefix = account_address_prefix ++ ascii "valconspub"
  c.set_coin_type chain_coin_type
  c.set_bech32_prefix_for_account account_address_prefix account_pub_key_prefix
  c.set_bech32_prefix_for_validator validator_address_prefix validator_pub_key_prefix
  c.set_bech32_prefix_for_consensus_node cons_node_address_prefix cons_node_pub_key_prefix
  c.seal

-- `init` of app/app.go: the bond denomination, the prefix of the environment and the home directory.
unfoldable pub init_app : (Bytes → Outcome Bytes) → Outcome (Bytes × (Bytes × Bytes))
init_app get_node_home_directory =
    elim (or_panic (get_node_home_directory (ascii "." ++ app_name))) [
      | ok home ↦ ok (ascii "stake", (app_name, home))
      | err e ↦ err e
      | panicked ↦ panicked
    ]

-- `GetKey`, with `UnsafeFindStoreKey` and the test whether a key is a `*KVStoreKey`.
unfoldable pub get_key :
    {Key KvKey : Type 0} → (Bytes → Key) → (Key → Option KvKey) → Bytes → Option KvKey
get_key unsafe_find_store_key as_kv_store_key store_key =
    as_kv_store_key (unsafe_find_store_key store_key)

-- `RegisterAPIRoutes`; the state is the router of the server.
unfoldable pub register_api_routes :
    {Router : Type 0}
    → Exec Router (Unit {0})
    → (Bool → Exec Router (Unit {0}))
    → (Bytes → Exec Router (Unit {0}))
    → Bool
    → Exec Router (Unit {0})
register_api_routes register_modules register_swagger_api register_open_api_service swagger = do
  register_modules
  must (register_swagger_api swagger)
  register_open_api_service app_name
