-- ===== src/TrustDeposit/Module.antt =====
-- x/td/module: the genesis methods and the blocks of module.go, and how depinject.go and NewKeeper
-- (keeper/keeper.go) make the keeper.
use veranatest.Export.{must}
use veranatest.TrustDeposit.Types.{
  DustAmount, GenesisState, Keeper, Params, State, default_trust_deposit_value, validate_params,
}
use veranatest.TrustDeposit.Handlers.{export_genesis, init_genesis}
use veranatest.TrustDeposit.Funds.{begin_blocker}
use veranatest.Registry.Module.{authority_of}
use veranatest.Sdk.Addresses.{AddressCodec}
use veranatest.Sdk.Bank.{Bank}
use veranatest.Sdk.Collections.{Item}
use veranatest.Sdk.Decimal.{Decimals}
use veranatest.Sdk.Modules.{JsonCodec, or_panic}
use veranatest.Prelude.{Bytes, Exec, Outcome, ascii, err, lift, ok, panicked, pure, ◌>>=◌}

-- `d, _ := call`: on an error the decimal is `LegacyDec{}`.
unfoldable pub dec_or_nil : (dec : Decimals) → Outcome dec.LegacyDec → Outcome dec.LegacyDec
dec_or_nil dec (ok d) = ok d
dec_or_nil dec (err e) = ok dec.nil_dec
dec_or_nil dec panicked = panicked

-- `DefaultParams`
unfoldable pub default_params : (dec : Decimals) → Outcome (Params dec)
unfolding dec_or_nil
default_params dec = elim (dec_or_nil dec (dec.from_str (ascii "1.0"))) [
  | ok share_value ↦ elim (dec_or_nil dec (dec.from_str (ascii "0.15"))) [
    | ok yield_rate ↦ ok (record {
      trust_deposit_share_value = share_value;
      trust_deposit_value = default_trust_deposit_value;
      trust_deposit_yield_rate = yield_rate;
    })
    | err e ↦ err e
    | panicked ↦ panicked
  ]
  | err e ↦ err e
  | panicked ↦ panicked
]

-- `NewKeeper`; `schema` is the answer of the schema's builder.
unfoldable pub new_keeper :
    (dec : Decimals)
    → AddressCodec
    → Bytes
    → Item (Params dec)
    → Item (DustAmount dec)
    → Bank
    → Outcome (Unit {0})
    → Outcome Keeper
new_keeper dec codec authority params dust_amount bank schema =
    elim (codec.bytes_to_string authority) [
      | ok text ↦ elim schema [
        | ok u ↦ ok (record {
          dec = dec;
          address_codec = codec;
          authority = authority;
          params = params;
          dust_amount = dust_amount;
          bank_keeper = bank;
        })
        | err e ↦ panicked
        | panicked ↦ panicked
      ]
      | err e ↦ panicked
      | panicked ↦ panicked
    ]

-- `ProvideModule`, up to the module: the keeper, whose authority is the module account of x/gov where
-- none is configured.
unfoldable pub provide_keeper :
    (dec : Decimals)
    → AddressCodec
    → Bytes
    → (Bytes → Bytes)
    → Bytes
    → Item (Params dec)
    → Item (DustAmount dec)
    → Bank
    → Outcome (Unit {0})
    → Outcome Keeper
unfolding new_keeper authority_of
provide_keeper dec codec gov_address address_or_bech32 configured params dust_amount bank schema =
    new_keeper dec codec (authority_of gov_address address_or_bech32 configured) params dust_amount
      bank schema

module _ (k : Keeper) where
  -- `GenesisState.Validate`
  unfoldable pub validate_genesis : GenesisState k.dec → Outcome (Unit {0})
  unfolding validate_params
  validate_genesis gs = validate_params k.dec gs.params

  module _ (cdc : JsonCodec (GenesisState k.dec)) where
    -- `AppModule.DefaultGenesis`
    unfoldable pub default_genesis_json : Outcome Bytes
    unfolding default_params
    default_genesis_json = elim (default_params k.dec) [
      | ok p ↦ or_panic (cdc.marshal_json (record { params = p }))
      | err e ↦ err e
      | panicked ↦ panicked
    ]

    -- `AppModule.ValidateGenesis`
    unfoldable pub validate_genesis_json : Bytes → Outcome (Unit {0})
    unfolding validate_genesis
    validate_genesis_json bz = elim (cdc.unmarshal_json bz) [
      | ok gen_state ↦ validate_genesis gen_state
      | err e ↦ err e
      | panicked ↦ panicked
    ]

    -- `AppModule.InitGenesis`
    unfoldable pub init_genesis_json : Bytes → Exec (State k) (Unit {0})
    unfolding init_genesis
    init_genesis_json gs = do
      gen_state ← must (lift (cdc.unmarshal_json gs))
      must (init_genesis k gen_state)

    -- `AppModule.ExportGenesis`
    unfoldable pub export_genesis_json : State k → Outcome Bytes
    unfolding export_genesis
    export_genesis_json s = elim (or_panic (export_genesis k s)) [
      | ok gen_state ↦ or_panic (cdc.marshal_json gen_state)
      | err e ↦ err e
      | panicked ↦ panicked
    ]

  -- `AppModule.BeginBlock`
  unfoldable pub begin_block : Exec (State k) (Unit {0})
  begin_block = begin_blocker k

  -- `AppModule.EndBlock`
  unfoldable pub end_block : Exec (State k) (Unit {0})
  end_block = pure tt
