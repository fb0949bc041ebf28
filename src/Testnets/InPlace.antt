-- ===== src/Testnets/InPlace.antt =====
-- cmd/veranatestd/cmd/testnet.go: the command that turns the state of a running chain into a test
-- network with one validator.
pub mod Removal
pub mod Funding
mod Tests
use veranatest.Export.{discard, must}
use veranatest.Testnets.Texts.{split_commas}
use veranatest.Prelude.{
  Bytes, Error, Exec, List, Outcome, [], ascii, err, false, gets, guard, is_empty, lift, not, ok,
  pure, ℕ, ◌>>=◌, ◌>>◌, ◌∷◌,
}
use veranatest.Prelude.Int.{pos, ◌-ℤ◌}
use veranatest.Sdk.Testnet.{TestnetKeepers}

-- `handleErr(err)`, which ends the process on an error; the end of the process is a panic here.
abbrev pub handle_err : {S A : Type 0} → Exec S A → Exec S A
handle_err m = must m

-- What `appOpts.Get` gives; a type assertion on another value fails.
pub data Value : Type 0 where
  hex_bytes : Bytes → Value
  pub_key : Bytes → Value
  text : Bytes → Value
  other_value : ℕ → Value

pub record AppOptions : Type 0 where
  pub new_val_addr : Value
  pub user_pub_key : Value
  pub new_op_addr : Value
  pub trigger_testnet_upgrade : Value
  pub accounts_to_fund : Value
  pub home : Value

pub record ValArgs : Type 0 where
  pub new_val_addr : Bytes
  pub new_operator_address : Bytes
  pub new_val_pub_key : Bytes
  pub accounts_to_fund : List Bytes
  pub upgrade_to_trigger : Bytes
  pub home_dir : Bytes

unfoldable pub as_hex_bytes : Value → Outcome Bytes
as_hex_bytes (hex_bytes b) = ok b
as_hex_bytes _ = err Error.invalid_argument

unfoldable pub as_pub_key : Value → Outcome Bytes
as_pub_key (pub_key b) = ok b
as_pub_key _ = err Error.invalid_argument

unfoldable pub as_text : Value → Outcome Bytes
as_text (text b) = ok b
as_text _ = err Error.invalid_argument

-- `getCommandArgs`; `to_string` is `cast.ToString`. It reads no state.
unfoldable pub get_command_args : (Value → Bytes) → AppOptions → Exec (Unit {0}) ValArgs
unfolding as_hex_bytes as_pub_key as_text split_commas
get_command_args to_string opts = do
  addr ← lift (as_hex_bytes opts.new_val_addr)
  pubkey ← lift (as_pub_key opts.user_pub_key)
  operator ← lift (as_text opts.new_op_addr)
  upgrade ← lift (as_text opts.trigger_testnet_upgrade)
  guard (not (is_empty (to_string opts.home))) Error.invalid_argument
  pure (record {
    new_val_addr = addr;
    new_operator_address = operator;
    new_val_pub_key = pubkey;
    accounts_to_fund = split_commas (to_string opts.accounts_to_fund);
    upgrade_to_trigger = upgrade;
    home_dir = to_string opts.home;
  })

abbrev pub val_voting_power : ℕ
val_voting_power = 900_000_000_000_000

abbrev pub mint_module : Bytes
mint_module = ascii "mint"

module _ (k : TestnetKeepers) where
  -- The loop over an iterator that deletes each key.
  unfoldable pub delete_keys : List Bytes → Exec k.Stores (Unit {0})
  delete_keys [] s = (ok tt, s)
  delete_keys (key ∷ rest) s = delete_keys rest (k.delete key s)

  -- `stakingStore.Iterator(p, PrefixEndBytes(p))`
  unfoldable pub keys_under : Bytes → k.Stores → List Bytes
  keys_under p s = k.iterator p (k.prefix_end_bytes p) s

  -- The removal of all validators: from the power store, the last validators, the validators and
  -- the unbonding queue.
  unfoldable pub remove_validators : Exec k.Stores (Unit {0})
  unfolding delete_keys keys_under
  remove_validators = do
    power_keys ← handle_err (gets k.validators_power_store_iterator)
    delete_keys power_keys
    last_keys ← handle_err (gets k.last_validators_iterator)
    delete_keys last_keys
    validator_keys ← gets (λ s. ok (keys_under k.validators_key s))
    delete_keys validator_keys
    queue_keys ← gets (λ s. ok (keys_under k.validator_queue_key s))
    delete_keys queue_keys

  unfoldable pub testnet_validator : Bytes → k.Any → k.Validator
  testnet_validator operator pubkey = k.new_validator (record {
    operator_address = operator;
    consensus_pubkey = pubkey;
    jailed = false;
    status = k.bonded;
    tokens = val_voting_power;
    delegator_shares = ascii "10000000";
    moniker = ascii "Testnet Validator";
    rate = ascii "0.05";
    max_rate = ascii "0.1";
    max_change_rate = ascii "0.05";
    min_self_delegation = 1;
  })

  -- The new validator in x/staking.
  unfoldable pub add_validator : k.Validator → Bytes → Exec k.Stores (Unit {0})
  add_validator v address = do
    handle_err (k.set_validator v)
    handle_err (k.set_validator_by_cons_addr v)
    handle_err (k.set_validator_by_power_index v)
    handle_err (k.set_last_validator_power address (pos 0))
    handle_err (k.after_validator_created address)

  -- Its records in x/distribution.
  unfoldable pub init_distribution : Bytes → Exec k.Stores (Unit {0})
  init_distribution address = do
    handle_err (k.set_validator_historical_rewards address 0 1)
    handle_err (k.set_validator_current_rewards address 1)
    handle_err (k.set_validator_accumulated_commission address)
    handle_err (k.set_validator_outstanding_rewards address)

  -- The loop over the accounts.
  unfoldable pub fund_accounts : k.Coins → List Bytes → Exec k.Stores (Unit {0})
  fund_accounts coins [] = pure tt
  fund_accounts coins (account_str ∷ rest) = do
    handle_err (k.mint_coins mint_module coins)
    account ← handle_err (lift (k.string_to_account account_str))
    handle_err (k.send_coins_from_module_to_account mint_module account coins)
    fund_accounts coins rest

  unfoldable pub init_app_for_testnet : ValArgs → Exec k.Stores (Unit {0})
  unfolding remove_validators testnet_validator add_validator init_distribution fund_accounts
  init_app_for_testnet args = do
    pubkey ← handle_err (lift (k.new_any_with_value args.new_val_pub_key))
    address ← handle_err (lift (k.string_to_validator args.new_operator_address))
    remove_validators
    add_validator (testnet_validator args.new_operator_address pubkey) address
    init_distribution address
    discard (k.set_validator_signing_info args.new_val_addr (k.last_block_height -ℤ pos 1) false)
    bond_denom ← handle_err (gets k.bond_denom)
    coins ← lift (k.new_coins bond_denom 1_000_000_000)
    fund_accounts coins args.accounts_to_fund

  -- `newTestnetApp` once `newApp` has given the app.
  unfoldable pub new_testnet_app : (Value → Bytes) → AppOptions → Exec k.Stores (Unit {0})
  unfolding get_command_args init_app_for_testnet
  new_testnet_app to_string opts = do
    args ← handle_err (lift (get_command_args to_string opts tt).0)
    init_app_for_testnet args
