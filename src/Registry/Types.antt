-- ===== src/Registry/Types.antt =====
-- The data of x/validatorregistry: types/validator.pb.go, types/tx.pb.go, types/genesis.pb.go,
-- types/params.go and the keeper's fields (keeper/keeper.go).
use veranatest.Prelude.{Bytes, List, Outcome, [], ok, ℕ}
use veranatest.Sdk.Collections.{Item, Map}
use veranatest.Sdk.Addresses.{AddressCodec}

pub record Validator : Type 0 where
  pub index : Bytes
  pub member_id : Bytes
  pub operator_address : Bytes
  pub consensus_pubkey : Bytes
  pub status : Bytes
  -- a uint64
  pub term_end : ℕ

pub record MsgOnboardValidator : Type 0 where
  pub creator : Bytes
  pub index : Bytes
  pub member_id : Bytes
  pub operator_address : Bytes
  pub consensus_pubkey : Bytes
  pub status : Bytes
  pub term_end : ℕ

-- `Params` has no field.
pub data Params : Type 0 where
  empty_params : Params

pub record MsgUpdateParams : Type 0 where
  pub authority : Bytes
  pub params : Params

pub record GenesisState : Type 0 where
  pub params : Params
  pub validator_map : List Validator

-- An event with its attributes.
pub record Event : Type 0 where
  pub kind : Bytes
  pub attributes : List (Bytes × Bytes)

pub record Keeper : Type 1 where
  pub address_codec : AddressCodec
  pub authority : Bytes
  pub params : Item Params
  pub validator : Map Validator

-- What a call can change: the module's two collections, and the events of the transaction.
pub record State (k : Keeper) : Type 0 where
  pub params : k.params.Store
  pub validator : k.validator.Store
  pub events : List Event

unfoldable pub default_params : Params
default_params = empty_params

unfoldable pub default_genesis : GenesisState
unfolding default_params
default_genesis = record { params = default_params; validator_map = [] }

-- `Params.Validate`
unfoldable pub validate_params : Params → Outcome (Unit {0})
validate_params p = ok tt
