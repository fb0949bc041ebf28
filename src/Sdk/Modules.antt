-- ===== src/Sdk/Modules.antt =====
-- The names that modules of the SDK and of ibc-go give to themselves, their accounts and permissions,
-- and what app/app.go calls to put an app together.
use veranatest.Prelude.{Bytes, Outcome, err, ok, panicked, ◌≡◌}

-- The constants `ModuleName` of each module, and the other names that app/app_config.go uses.
pub record Names : Type 0 where
  pub runtime : Bytes
  pub auth : Bytes
  pub vesting : Bytes
  pub bank : Bytes
  pub staking : Bytes
  pub slashing : Bytes
  pub genutil : Bytes
  pub authz : Bytes
  pub upgrade : Bytes
  pub distr : Bytes
  pub evidence : Bytes
  pub mint : Bytes
  pub group : Bytes
  pub nft : Bytes
  pub feegrant : Bytes
  pub gov : Bytes
  pub consensus : Bytes
  pub circuit : Bytes
  pub params : Bytes
  pub epochs : Bytes
  pub protocolpool : Bytes
  pub ibc : Bytes
  pub ibc_transfer : Bytes
  pub ica : Bytes
  pub fee_collector_name : Bytes
  pub bonded_pool_name : Bytes
  pub not_bonded_pool_name : Bytes
  pub protocol_pool_escrow_account : Bytes
  pub minter : Bytes
  pub burner : Bytes

-- The JSON form of a message, as `codec.Codec` writes and reads it; what is written is read back.
pub record JsonCodec (A : Type 0) : Type 0 where
  pub marshal_json : A → Outcome Bytes
  pub unmarshal_json : Bytes → Outcome A
  pub unmarshal_marshal : (a : A) (b : Bytes) → marshal_json a ≡ ok b → unmarshal_json b ≡ ok a

-- `panic(err)` where there is an error.
abbrev pub or_panic : {A : Type 0} → Outcome A → Outcome A
or_panic (ok a) = ok a
or_panic (err e) = panicked
or_panic panicked = panicked
