-- ===== src/Registry/Module.antt =====
-- x/validatorregistry/module: the genesis methods and the start of a block of module.go, and how
-- depinject.go and NewKeeper (keeper/keeper.go) make the keeper.
pub mod Passage
mod Tests
use veranatest.Export.{must}
use veranatest.Registry.Types.{GenesisState, Keeper, Params, State, Validator, default_genesis}
use veranatest.Registry.Genesis.{export_genesis, init_genesis, validate_genesis}
use veranatest.Sdk.Addresses.{AddressCodec}
use veranatest.Sdk.Collections.{Item, Map}
use veranatest.Sdk.Modules.{JsonCodec, or_panic}
use veranatest.Prelude.{
  Bytes, Exec, Outcome, err, if◌then◌else◌, is_empty, lift, ok, panicked, pure, ◌>>=◌,
}

-- The authority of `ProvideModule`: the module account of x/gov where none is configured.
unfoldable pub authority_of : Bytes → (Bytes → Bytes) → Bytes → Bytes
authority_of gov_address address_or_bech32 configured =
    if is_empty configured then gov_address else address_or_bech32 configured

-- `NewKeeper`; `schema` is the answer of the schema's builder.
unfoldable pub new_keeper :
    AddressCodec → Bytes → Item Params → Map Validator → Outcome (Unit {0}) → Outcome Keeper
new_keeper codec authority params validator schema = elim (codec.bytes_to_string authority) [
  | ok text ↦ elim schema [
    | ok u ↦ ok (record {
      address_codec = codec;
      authority = authority;
      params = params;
      validator = validator;
    })
    | err e ↦ panicked
    | panicked ↦ panicked
  ]
  | err e ↦ panicked
  | panicked ↦ panicked
]

-- `ProvideModule`, up to the module.
unfoldable pub provide_keeper :
    AddressCodec
    → Bytes
    → (Bytes → Bytes)
    → Bytes
    → Item Params
    → Map Validator
    → Outcome (Unit {0})
    → Outcome Keeper
unfolding new_keeper authority_of
provide_keeper codec gov_address address_or_bech32 configured params validator schema =
    new_keeper codec (authority_of gov_address address_or_bech32 configured) params validator schema

module _ (cdc : JsonCodec GenesisState) where
  -- `AppModule.DefaultGenesis`
  unfoldable pub default_genesis_json : Outcome Bytes
  default_genesis_json = or_panic (cdc.marshal_json default_genesis)

  -- `AppModule.ValidateGenesis`
  unfoldable pub validate_genesis_json : Bytes → Outcome (Unit {0})
  validate_genesis_json bz = elim (cdc.unmarshal_json bz) [
    | ok gen_state ↦ validate_genesis gen_state
    | err e ↦ err e
    | panicked ↦ panicked
  ]

  module _ (k : Keeper) where
    -- `AppModule.InitGenesis`
    unfoldable pub init_genesis_json : Bytes → Exec (State k) (Unit {0})
    init_genesis_json gs = do
      gen_state ← must (lift (cdc.unmarshal_json gs))
      must (init_genesis k gen_state)

    -- `AppModule.ExportGenesis`
    unfoldable pub export_genesis_json : State k → Outcome Bytes
    export_genesis_json s = elim (or_panic (export_genesis k s)) [
      | ok gen_state ↦ or_panic (cdc.marshal_json gen_state)
      | err e ↦ err e
      | panicked ↦ panicked
    ]

-- `AppModule.BeginBlock`
unfoldable pub begin_block : (k : Keeper) → Exec (State k) (Unit {0})
begin_block k = pure tt
