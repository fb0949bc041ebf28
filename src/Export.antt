-- ===== src/Export.antt =====
-- app/export.go: the export of the application's state, and what it resets before an export for a
-- start at height zero.
pub mod Rules
mod Resets
pub mod Validators
pub mod Panics
pub mod Results
mod Tests
use veranatest.Prelude.{
  Bool, Bytes, Exec, List, Option, Outcome, [], bytes_eq, err, false, gets, if◌then◌else◌, lift,
  map, none, not, ok, panicked, pure, some, true, ◌&&◌, ◌+◌, ◌-◌, ◌==◌, ◌>>=◌, ◌>>◌, ◌^◌, ◌||◌, ◌∷◌,
}
use veranatest.Prelude.Int.{negsuc, pos, ℤ}
use veranatest.Sdk.Staking.{Delegation, Entry, Keepers, Pending, SigningInfo, StakingValidator}

-- `if err != nil { panic(err) }`
unfoldable pub must : {S A : Type 0} → Exec S A → Exec S A
must m s = elim (m s).0 [
  | ok a ↦ (ok a, (m s).1)
  | err e ↦ (panicked, (m s).1)
  | panicked ↦ (panicked, (m s).1)
]

-- `_, _ = call`
unfoldable pub discard : {S : Type 0} → Exec S (Unit {0}) → Exec S (Unit {0})
discard m s = elim (m s).0 [
  | ok a ↦ (ok tt, (m s).1)
  | err e ↦ (ok tt, (m s).1)
  | panicked ↦ (panicked, (m s).1)
]

-- A Go map from strings to `true`, as the list of its keys.
unfoldable pub is_allowed : List Bytes → Bytes → Bool
is_allowed [] addr = false
is_allowed (x ∷ xs) addr = bytes_eq x addr || is_allowed xs addr

-- `applyAllowedAddrs`
unfoldable pub applies : List Bytes → Bool
applies [] = false
applies (x ∷ xs) = true

-- A call without a result; `none` is a panic.
unfoldable pub procedure : {S : Type 0} → (S → Option S) → Exec S (Unit {0})
procedure f s = elim (f s) [ some t ↦ (ok tt, t) | none ↦ (panicked, s) ]

abbrev pub zero_height : {R : Type 0} → Entry R → Entry R
zero_height entry = record entry { creation_height = pos 0 }

abbrev pub zero_heights : {E R : Type 0} → Pending E R → Pending E R
zero_heights p = record p { entries = map zero_height p.entries }

module _ (k : Keepers) where
  -- The loop over `jailAllowedAddrs`, which fills `allowedAddrsMap` with all of them.
  unfoldable pub check_allowed : List Bytes → Exec k.Stores (Unit {0})
  check_allowed [] = pure tt
  check_allowed (addr ∷ rest) = do
    must (lift (k.validator_address_codec.string_to_bytes addr))
    check_allowed rest

  unfoldable pub withdraw_commission : k.Context → StakingValidator k.Rest → Exec k.Stores Bool
  withdraw_commission ctx val = do
    val_bz ← must (lift (k.staking_codec.string_to_bytes val.operator_address))
    discard (k.withdraw_validator_commission ctx val_bz)
    pure false

  unfoldable pub withdraw_rewards : k.Context → List Delegation → Exec k.Stores (Unit {0})
  withdraw_rewards ctx [] = pure tt
  withdraw_rewards ctx (delegation ∷ rest) = do
    val_addr ← must (lift (k.validator_address_codec.string_to_bytes delegation.validator_address))
    del_addr ← must (lift (k.address_codec.string_to_bytes delegation.delegator_address))
    discard (k.withdraw_delegation_rewards ctx del_addr val_addr)
    withdraw_rewards ctx rest

  unfoldable pub reinitialize_validator : k.Context → StakingValidator k.Rest → Exec k.Stores Bool
  reinitialize_validator ctx val = do
    val_bz ← must (lift (k.staking_codec.string_to_bytes val.operator_address))
    rewards ← must (gets (k.get_validator_outstanding_rewards_coins ctx val_bz))
    fee_pool ← must (gets (k.get_fee_pool ctx))
    must (
        k.set_fee_pool ctx
          (record fee_pool { community_pool = k.add_coins fee_pool.community_pool rewards }))
    must (k.after_validator_created ctx val_bz)
    pure false

  unfoldable pub reinitialize_delegations : k.Context → List Delegation → Exec k.Stores (Unit {0})
  reinitialize_delegations ctx [] = pure tt
  reinitialize_delegations ctx (del ∷ rest) = do
    val_addr ← must (lift (k.validator_address_codec.string_to_bytes del.validator_address))
    del_addr ← must (lift (k.address_codec.string_to_bytes del.delegator_address))
    must (k.before_delegation_created ctx del_addr val_addr)
    must (k.after_delegation_modified ctx del_addr val_addr)
    reinitialize_delegations ctx rest

  -- `Handle fee distribution state`
  unfoldable pub reset_distribution : k.Context → Exec k.Stores (Unit {0})
  unfolding withdraw_commission withdraw_rewards reinitialize_validator reinitialize_delegations
  reset_distribution ctx = do
    must ((k.validators ctx).iterate (withdraw_commission ctx))
    dels ← must (gets (k.get_all_delegations ctx))
    withdraw_rewards ctx dels
    procedure (k.delete_all_validator_slash_events ctx)
    procedure (k.delete_all_validator_historical_rewards ctx)
    must (
        (k.validators (k.with_block_height ctx (pos 0))).iterate
          (reinitialize_validator (k.with_block_height ctx (pos 0))))
    reinitialize_delegations (k.with_block_height ctx (pos 0)) dels

  unfoldable pub reset_redelegation : k.Context → Pending k.Rest k.Rest → Exec k.Stores Bool
  reset_redelegation ctx red = do must (k.set_redelegation ctx (zero_heights red)); pure false

  unfoldable pub reset_unbonding_delegation : k.Context → Pending k.Rest k.Rest → Exec k.Stores Bool
  reset_unbonding_delegation ctx ubd = do
    must (k.set_unbonding_delegation ctx (zero_heights ubd))
    pure false

  -- The record that the loop over the validators stores.
  unfoldable pub reset_record :
      List Bytes → Bytes → StakingValidator k.Rest → StakingValidator k.Rest
  reset_record allowed val_addr validator = record validator {
    unbonding_height = pos 0;
    jailed =
        if applies allowed && not (is_allowed allowed val_addr) then true else validator.jailed;
  }

  -- The body of that loop.
  unfoldable pub reset_validator : List Bytes → Bytes → Exec k.Stores (Unit {0})
  reset_validator allowed addr = do
    validator ← must (gets (λ s. k.get_validator s addr))
    val_addr ← must (lift (k.staking_codec.bytes_to_string addr))
    must (k.set_validator (reset_record allowed val_addr validator))

  unfoldable pub reset_validators : List Bytes → List Bytes → Exec k.Stores (Unit {0})
  unfolding reset_validator
  reset_validators allowed [] = pure tt
  reset_validators allowed (key ∷ rest) =
      reset_validator allowed (k.address_from_validators_key key) >> reset_validators allowed rest

  unfoldable pub reset_signing_info : k.Context → Bytes × SigningInfo k.Rest → Exec k.Stores Bool
  reset_signing_info ctx (addr, info) = do
    discard (k.set_validator_signing_info ctx addr (record info { start_height = pos 0 }))
    pure false

  -- What follows the loop over the validators, unless the iterator does not close.
  unfoldable pub finish_reset : k.Context → Exec k.Stores (Unit {0})
  unfolding reset_signing_info
  finish_reset ctx = do
    must (k.apply_and_return_validator_set_updates ctx)
    must ((k.signing_infos ctx).iterate (reset_signing_info ctx))

  unfoldable pub close_and_finish : k.Context → Exec k.Stores (Unit {0})
  unfolding finish_reset
  close_and_finish ctx s = elim (k.close_iterator s) [
    | ok u ↦ finish_reset ctx s
    | err e ↦ (ok tt, s)
    | panicked ↦ (panicked, s)
  ]

  -- `Handle staking state` and `Handle slashing state`
  unfoldable pub reset_staking : k.Context → List Bytes → Exec k.Stores (Unit {0})
  unfolding reset_redelegation reset_unbonding_delegation reset_validators close_and_finish
  reset_staking ctx allowed = do
    must ((k.redelegations ctx).iterate (reset_redelegation ctx))
    must ((k.unbonding_delegations ctx).iterate (reset_unbonding_delegation ctx))
    keys ← gets (λ s. ok (k.validator_keys s))
    reset_validators allowed keys
    close_and_finish ctx

  unfoldable pub prep_for_zero_height_genesis : k.Context → List Bytes → Exec k.Stores (Unit {0})
  unfolding check_allowed reset_distribution reset_staking
  prep_for_zero_height_genesis ctx jail_allowed_addrs = do
    check_allowed jail_allowed_addrs
    reset_distribution ctx
    reset_staking (k.with_block_height (k.with_block_height ctx (pos 0)) (k.block_height ctx))
        jail_allowed_addrs

-- `h + 1` of an int64.
unfoldable pub next_height : ℤ → ℤ
next_height (pos n) = if n + 1 == 2 ^ 63 then negsuc (2 ^ 63 - 1) else pos (n + 1)
next_height (negsuc n) = if n == 0 then pos 0 else negsuc (n - 1)

-- What `ExportAppStateAndValidators` calls besides: the exports of the modules only read.
pub record Application (k : Keepers) : Type 1 where
  pub ModuleStates : Type 0
  pub ValidatorSet : Type 0
  pub ConsensusParams : Type 0
  pub last_block_height : ℤ
  -- `app.NewContextLegacy(true, cmtproto.Header{Height: h})`
  pub new_context : ℤ → k.Context
  pub export_genesis_for_modules : k.Context → List Bytes → k.Stores → Outcome ModuleStates
  pub marshal_indent : ModuleStates → Outcome Bytes
  pub write_validators : k.Context → k.Stores → Outcome ValidatorSet
  pub get_consensus_params : k.Context → k.Stores → ConsensusParams

pub record ExportedApp (V P : Type 0) : Type 0 where
  pub app_state : Bytes
  pub validators : V
  pub height : ℤ
  pub consensus_params : P

module _ (k : Keepers) (app : Application k) where
  -- The value of the last return, which also has the error of `WriteValidators`, is not kept when
  -- there is one.
  unfoldable pub export_app_state :
      ℤ → List Bytes → Exec k.Stores (ExportedApp app.ValidatorSet app.ConsensusParams)
  export_app_state height modules_to_export = do
    gen_state ←
        gets
          (app.export_genesis_for_modules (app.new_context app.last_block_height) modules_to_export)
    app_state ← lift (app.marshal_indent gen_state)
    validators ← gets (app.write_validators (app.new_context app.last_block_height))
    consensus_params ←
        gets (λ s. ok (app.get_consensus_params (app.new_context app.last_block_height) s))
    pure (record {
      app_state = app_state;
      validators = validators;
      height = height;
      consensus_params = consensus_params;
    })

  unfoldable pub export_app_state_and_validators :
      Bool
      → List Bytes
      → List Bytes
      → Exec k.Stores (ExportedApp app.ValidatorSet app.ConsensusParams)
  unfolding export_app_state prep_for_zero_height_genesis
  export_app_state_and_validators for_zero_height jail_allowed_addrs modules_to_export =
      if for_zero_height
      then (do
        prep_for_zero_height_genesis k (app.new_context app.last_block_height) jail_allowed_addrs
        export_app_state (pos 0) modules_to_export)
      else export_app_state (next_height app.last_block_height) modules_to_export
