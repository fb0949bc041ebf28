-- ===== src/Sdk/Testnet.antt =====
-- cosmos-sdk: the stores and keepers that cmd/veranatestd/cmd/testnet.go changes.
use veranatest.Sdk.Bank.{Moved}
use veranatest.Prelude.{
  Bool, Bytes, Exec, List, Listed, Option, Outcome, bytes_eq, has_prefix, if◌then◌else◌, none, ok,
  true, ℕ, ◌+◌, ◌↔◌, ◌≡◌, ◌≢◌,
}
use veranatest.Prelude.Int.{ℤ}

-- The fields of a `stakingtypes.Validator` that the command sets; decimals by their text.
pub record ValidatorFields (Any Status : Type 0) : Type 0 where
  pub operator_address : Bytes
  pub consensus_pubkey : Any
  pub jailed : Bool
  pub status : Status
  pub tokens : ℕ
  pub delegator_shares : Bytes
  pub moniker : Bytes
  pub rate : Bytes
  pub max_rate : Bytes
  pub max_change_rate : Bytes
  pub min_self_delegation : ℕ

pub record TestnetKeepers : Type 1 where
  pub Stores : Type 0
  pub Any : Type 0
  pub Status : Type 0
  pub Validator : Type 0
  pub Coins : Type 0
  pub last_block_height : ℤ
  pub bonded : Status
  pub new_validator : ValidatorFields Any Status → Validator
  pub new_any_with_value : Bytes → Outcome Any
  pub string_to_validator : Bytes → Outcome Bytes
  pub string_to_account : Bytes → Outcome Bytes
  -- the key-value store of x/staking: what it holds at a key, `Delete`, and the keys of iterators
  pub value : Stores → Bytes → Option Bytes
  pub delete : Bytes → Stores → Stores
  pub iterator : Bytes → Bytes → Stores → List Bytes
  pub prefix_end_bytes : Bytes → Bytes
  pub validators_power_store_iterator : Stores → Outcome (List Bytes)
  pub last_validators_iterator : Stores → Outcome (List Bytes)
  pub power_index_key : Bytes
  pub last_power_key : Bytes
  pub validators_key : Bytes
  pub validator_queue_key : Bytes
  pub set_validator : Validator → Exec Stores (Unit {0})
  pub set_validator_by_cons_addr : Validator → Exec Stores (Unit {0})
  pub set_validator_by_power_index : Validator → Exec Stores (Unit {0})
  pub set_last_validator_power : Bytes → ℤ → Exec Stores (Unit {0})
  pub after_validator_created : Bytes → Exec Stores (Unit {0})
  pub bond_denom : Stores → Outcome Bytes
  -- x/distribution: records with empty rewards, by the period and the count of references
  pub set_validator_historical_rewards : Bytes → ℕ → ℕ → Exec Stores (Unit {0})
  pub set_validator_current_rewards : Bytes → ℕ → Exec Stores (Unit {0})
  pub set_validator_accumulated_commission : Bytes → Exec Stores (Unit {0})
  pub set_validator_outstanding_rewards : Bytes → Exec Stores (Unit {0})
  -- x/slashing: the address, the start height, and whether it is tombstoned
  pub set_validator_signing_info : Bytes → ℤ → Bool → Exec Stores (Unit {0})
  -- x/bank
  pub new_coins : Bytes → ℕ → Outcome Coins
  pub amount_of : Coins → Bytes → ℕ
  pub balance : Stores → Bytes → Bytes → ℕ
  pub module_address : Bytes → Bytes
  pub mint_coins : Bytes → Coins → Exec Stores (Unit {0})
  pub send_coins_from_module_to_account : Bytes → Bytes → Coins → Exec Stores (Unit {0})
  pub delete_lem :
      (key : Bytes) (s : Stores) (j : Bytes)
      → value (delete key s) j ≡ (if bytes_eq key j then none else value s j)
  -- An iterator yields the keys in its range that hold a value.
  pub iterator_lem :
      (p : Bytes) (s : Stores) (j : Bytes)
      → Listed j (iterator p (prefix_end_bytes p) s)
        ↔ ((has_prefix p j ≡ true) × (value s j ≢ none))
  pub power_iterator_lem :
      (s : Stores) (keys : List Bytes)
      → validators_power_store_iterator s ≡ ok keys
      → (j : Bytes) → Listed j keys ↔ ((has_prefix power_index_key j ≡ true) × (value s j ≢ none))
  pub last_iterator_lem :
      (s : Stores) (keys : List Bytes)
      → last_validators_iterator s ≡ ok keys
      → (j : Bytes) → Listed j keys ↔ ((has_prefix last_power_key j ≡ true) × (value s j ≢ none))
  pub mint_ok :
      (m : Bytes) (c : Coins) (s t : Stores)
      → mint_coins m c s ≡ (ok tt, t)
      → (a d : Bytes)
      → balance t a d ≡ balance s a d + (if bytes_eq (module_address m) a then amount_of c d else 0)
  pub send_ok :
      (m a : Bytes) (c : Coins) (s t : Stores)
      → send_coins_from_module_to_account m a c s ≡ (ok tt, t)
      → module_address m ≢ a
      → Moved balance amount_of (module_address m) a c s t
