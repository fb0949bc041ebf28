-- ===== src/Export/Tests.antt =====
-- Exports of two validators, of which one is allowed, and the theorems there.
use veranatest.Export.Resets.{IsReset}
use veranatest.Export.Results.{Exports, Fails, export_err, export_ok}
use veranatest.Export.Validators.{IsKeyed, among, reset_validators_ok}
use veranatest.Sdk.Staking.{StakingValidator}
use veranatest.Export.{
  Application, ExportedApp, applies, check_allowed, close_and_finish, discard, export_app_state,
  export_app_state_and_validators, finish_reset, is_allowed, must, next_height,
  prep_for_zero_height_genesis, procedure, reinitialize_delegations, reinitialize_validator,
  reset_distribution, reset_record, reset_staking, reset_validator, reset_validators,
  withdraw_commission, withdraw_rewards,
}
use veranatest.Sdk.Instances.{find_value, item_get, item_get_ok, newest, newest_complete}
use veranatest.Sdk.Instances.Stakings.{Stored, keys_of, staking_list, text_bytes, validator_at}
use veranatest.Prelude.{
  Bytes, Error, List, [], ascii, bytes_eq, err, false, gets, inl, inr, lift, ok, pure, refl, subst,
  sym, true, ℕ, ◌>>=◌, ◌∷◌, ◌≡◌,
}
use veranatest.Prelude.Int.{pos}

abbrev validator : Bytes → ℕ → StakingValidator (Unit {0})
validator name height = record {
  operator_address = name;
  jailed = false;
  unbonding_height = pos height;
  rest = tt;
}

abbrev two_validators : Stored
two_validators = (ascii "a", validator (ascii "a") 7) ∷ (ascii "b", validator (ascii "b") 9) ∷ []

-- The allowed one keeps its state, the other one is jailed.
abbrev after_reset : Stored
after_reset =
    (ascii "b", record (validator (ascii "b") 0) { jailed = true })
    ∷ (ascii "a", validator (ascii "a") 0)
    ∷ two_validators

run_reset :
    reset_validators staking_list (ascii "a" ∷ []) (keys_of two_validators) two_validators
    ≡ (ok tt, after_reset)
unfolding reset_validators reset_validator must gets lift ◌>>=◌ pure reset_record applies is_allowed
    bytes_eq text_bytes find_value item_get
run_reset = refl

abbrev plain_application : Application staking_list
plain_application = record {
  ModuleStates = List Bytes;
  ValidatorSet = List Bytes;
  ConsensusParams = Unit;
  last_block_height = pos 41;
  new_context = λ h. h;
  export_genesis_for_modules = λ c modules s. ok modules;
  marshal_indent = λ states. ok (ascii "{}");
  write_validators = λ c s. ok (keys_of s);
  get_consensus_params = λ c s. tt;
}

two_validators-IsKeyed : IsKeyed staking_list two_validators
unfolding newest text_bytes bytes_eq
two_validators-IsKeyed = record {
  at = λ a v h.
      elim (newest_complete two_validators a v (item_get_ok (find_value two_validators a) v h)) [
        | inl p ↦
            subst
              (λ (q : Bytes × StakingValidator (Unit {0})).
                text_bytes q.1.operator_address ≡ ok q.0)
              (sym p) refl
        | inr (inl p) ↦
            subst
              (λ (q : Bytes × StakingValidator (Unit {0})).
                text_bytes q.1.operator_address ≡ ok q.0)
              (sym p) refl
        | inr (inr x) ↦ absurd x
      ];
}

reset_validators_ok_example :
    (among staking_list (keys_of two_validators) (ascii "b") ≡ true
      → IsReset staking_list (ascii "a" ∷ []) (ascii "b") two_validators after_reset)
    × (among staking_list (keys_of two_validators) (ascii "b") ≡ false
        → validator_at after_reset (ascii "b") ≡ validator_at two_validators (ascii "b"))
reset_validators_ok_example =
    reset_validators_ok staking_list (ascii "a" ∷ []) (keys_of two_validators) two_validators
      after_reset two_validators-IsKeyed run_reset (ascii "b")

-- An application in which the encoding fails.
abbrev broken_application : Application staking_list
broken_application = record plain_application { marshal_indent = λ states. err (Error.foreign 5) }

run_broken :
    export_app_state_and_validators staking_list broken_application false [] [] two_validators
    ≡ (err (Error.foreign 5), two_validators)
unfolding export_app_state_and_validators export_app_state gets lift ◌>>=◌ pure
run_broken = refl

export_err_example :
    Fails staking_list broken_application [] two_validators (Error.foreign 5)
    × (false ≡ false → two_validators ≡ two_validators)
export_err_example =
    export_err staking_list broken_application false [] [] two_validators two_validators
      (Error.foreign 5) run_broken

abbrev exported : ExportedApp (List Bytes) (Unit {0})
exported = record {
  app_state = ascii "{}";
  validators = keys_of after_reset;
  height = pos 0;
  consensus_params = tt;
}

run_export :
    export_app_state_and_validators staking_list plain_application true
      (ascii "a" ∷ [])
      []
      two_validators
    ≡ (ok exported, after_reset)
unfolding export_app_state_and_validators export_app_state prep_for_zero_height_genesis
    check_allowed reset_distribution withdraw_commission withdraw_rewards reinitialize_validator
    reinitialize_delegations reset_staking close_and_finish finish_reset procedure discard
    reset_validators reset_validator must gets lift ◌>>=◌ pure reset_record applies is_allowed
    bytes_eq text_bytes find_value item_get
run_export = refl

export_ok_example :
    Exports staking_list plain_application [] after_reset exported
    × (true ≡ true
        → (prep_for_zero_height_genesis staking_list (pos 41) (ascii "a" ∷ []) two_validators
            ≡ (ok tt, after_reset))
          × (pos 0 ≡ pos 0))
    × (true ≡ false → (after_reset ≡ two_validators) × (pos 0 ≡ next_height (pos 41)))
export_ok_example =
    export_ok staking_list plain_application true (ascii "a" ∷ []) [] two_validators after_reset
      exported run_export
