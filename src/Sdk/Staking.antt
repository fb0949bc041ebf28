-- ===== src/Sdk/Staking.antt =====
-- cosmos-sdk x/staking, x/distribution and x/slashing: the calls that app/export.go makes of their
-- keepers. A record keeps the fields that the chain reads or writes, and the others as `rest`.
use veranatest.Prelude.{
  Bool, Bytes, Exec, List, Option, Outcome, [], bytes_eq, if◌then◌else◌, ok, pure, ◌>>=◌, ◌∷◌, ◌≡◌,
}
use veranatest.Prelude.Int.{ℤ}

pub record StakingValidator (Rest : Type 0) : Type 0 where
  pub operator_address : Bytes
  pub jailed : Bool
  pub unbonding_height : ℤ
  pub rest : Rest

pub record Delegation : Type 0 where
  pub delegator_address : Bytes
  pub validator_address : Bytes

-- An entry of a redelegation or of an unbonding delegation.
pub record Entry (Rest : Type 0) : Type 0 where
  pub creation_height : ℤ
  pub rest : Rest

-- A `Redelegation` or an `UnbondingDelegation`.
pub record Pending (EntryRest Rest : Type 0) : Type 0 where
  pub entries : List (Entry EntryRest)
  pub rest : Rest

pub record SigningInfo (Rest : Type 0) : Type 0 where
  pub start_height : ℤ
  pub rest : Rest

pub record FeePool (Coins Rest : Type 0) : Type 0 where
  pub community_pool : Coins
  pub rest : Rest

-- The callback of an iteration on each value, until it answers `true`.
abbrev pub each : {S V : Type 0} → (V → Exec S Bool) → List V → Exec S (Unit {0})
each f [] = pure tt
each f (v ∷ rest) = f v >>= λ stop. if stop then pure tt else each f rest

-- An `Iterate...` method of a keeper. One that returns no error has called the callback on the
-- values that its iterator yielded.
pub record Iteration (S V : Type 0) : Type 0 where
  pub yields : S → List V
  pub iterate : (V → Exec S Bool) → Exec S (Unit {0})
  pub iterate_ok :
      (f : V → Exec S Bool) (s t : S) → iterate f s ≡ (ok tt, t) → each f (yields s) s ≡ (ok tt, t)

-- What a call needs besides the stores: the context and the two codecs of addresses.
pub record Codec : Type 0 where
  pub string_to_bytes : Bytes → Outcome Bytes
  pub bytes_to_string : Bytes → Outcome Bytes

pub record Keepers : Type 1 where
  pub Context : Type 0
  pub Stores : Type 0
  pub Rest : Type 0
  pub Coins : Type 0
  pub block_height : Context → ℤ
  pub with_block_height : Context → ℤ → Context
  -- the codecs of the interface registry, and that of x/staking
  pub address_codec : Codec
  pub validator_address_codec : Codec
  pub staking_codec : Codec
  -- x/staking
  pub validators : Context → Iteration Stores (StakingValidator Rest)
  pub redelegations : Context → Iteration Stores (Pending Rest Rest)
  pub unbonding_delegations : Context → Iteration Stores (Pending Rest Rest)
  pub get_all_delegations : Context → Stores → Outcome (List Delegation)
  pub set_redelegation : Context → Pending Rest Rest → Exec Stores (Unit {0})
  pub set_unbonding_delegation : Context → Pending Rest Rest → Exec Stores (Unit {0})
  pub get_validator : Stores → Bytes → Outcome (StakingValidator Rest)
  pub set_validator : StakingValidator Rest → Exec Stores (Unit {0})
  pub apply_and_return_validator_set_updates : Context → Exec Stores (Unit {0})
  -- the keys of the store of validators in descending order, the address in such a key, and the
  -- result of closing the iterator
  pub validator_keys : Stores → List Bytes
  pub address_from_validators_key : Bytes → Bytes
  pub close_iterator : Stores → Outcome (Unit {0})
  -- x/distribution
  pub withdraw_validator_commission : Context → Bytes → Exec Stores (Unit {0})
  pub withdraw_delegation_rewards : Context → Bytes → Bytes → Exec Stores (Unit {0})
  pub delete_all_validator_slash_events : Context → Stores → Option Stores
  pub delete_all_validator_historical_rewards : Context → Stores → Option Stores
  pub get_validator_outstanding_rewards_coins : Context → Bytes → Stores → Outcome Coins
  pub add_coins : Coins → Coins → Coins
  pub get_fee_pool : Context → Stores → Outcome (FeePool Coins Rest)
  pub set_fee_pool : Context → FeePool Coins Rest → Exec Stores (Unit {0})
  pub after_validator_created : Context → Bytes → Exec Stores (Unit {0})
  pub before_delegation_created : Context → Bytes → Bytes → Exec Stores (Unit {0})
  pub after_delegation_modified : Context → Bytes → Bytes → Exec Stores (Unit {0})
  -- x/slashing
  pub signing_infos : Context → Iteration Stores (Bytes × SigningInfo Rest)
  pub set_validator_signing_info : Context → Bytes → SigningInfo Rest → Exec Stores (Unit {0})
  -- `SetValidator` stores the record under its operator's address, and nothing else.
  pub set_validator_ok :
      (v : StakingValidator Rest) (s t : Stores)
      → set_validator v s ≡ (ok tt, t)
      → (a : Bytes) → staking_codec.string_to_bytes v.operator_address ≡ ok a
      → (b : Bytes) → get_validator t b ≡ (if bytes_eq a b then ok v else get_validator s b)
