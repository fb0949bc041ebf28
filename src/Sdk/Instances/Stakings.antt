-- ===== src/Sdk/Instances/Stakings.antt =====
-- Concrete keepers for the export: a list of pairs stores the validators, and the rest of the state
-- is empty.
use veranatest.Sdk.Instances.{find_value, item_get}
use veranatest.Prelude.{
  Bool-cases, Bytes, Error, List, Outcome, [], ap, bytes_eq, err, if◌then◌else◌, inl, inr, ok,
  ok_injective, pure, refl, some, ℕ, ◌+◌, ◌∷◌, ◌≡◌,
}
use veranatest.Prelude.Int.{ℤ}
use veranatest.Sdk.Staking.{Codec, Iteration, Keepers, StakingValidator, each}

-- A text is its bytes, and the empty text is no address.
unfoldable pub text_bytes : Bytes → Outcome Bytes
text_bytes [] = err (Error.foreign 1)
text_bytes (b ∷ rest) = ok (b ∷ rest)

pub text_bytes_ok : (text a : Bytes) → text_bytes text ≡ ok a → text ≡ a
unfolding text_bytes
text_bytes_ok [] a h = cc
text_bytes_ok (b ∷ rest) a h = ok_injective h

abbrev text_codec : Codec
text_codec = record { string_to_bytes = text_bytes; bytes_to_string = text_bytes }

abbrev pub Stored : Type 0
Stored = List (Bytes × StakingValidator (Unit {0}))

abbrev pub keys_of : Stored → List Bytes
keys_of [] = []
keys_of ((key, v) ∷ rest) = key ∷ keys_of rest

abbrev pub values_of : Stored → List (StakingValidator (Unit {0}))
values_of [] = []
values_of ((key, v) ∷ rest) = v ∷ values_of rest

abbrev pub iteration : {V : Type 0} → (Stored → List V) → Iteration Stored V
iteration yields = record {
  yields = yields;
  iterate = λ f s. each f (yields s) s;
  iterate_ok = λ f s t h. h;
}

abbrev pub validator_at : Stored → Bytes → Outcome (StakingValidator (Unit {0}))
validator_at s a = item_get (find_value s a)

found_first :
    (v : StakingValidator (Unit {0})) (s : Stored) (b : Bytes)
    → validator_at ((v.operator_address, v) ∷ s) b
      ≡ (if bytes_eq v.operator_address b then ok v else validator_at s b)
unfolding find_value item_get
found_first v s b = elim (Bool-cases (bytes_eq v.operator_address b)) [
  | inl e ↦ rw (e) refl
  | inr e ↦ rw (e) refl
]

pub set_lem :
    (v : StakingValidator (Unit {0})) (s t : Stored)
    → pure {S = Stored} tt ((v.operator_address, v) ∷ s) ≡ (ok tt, t)
    → (a : Bytes) → text_bytes v.operator_address ≡ ok a
    → (b : Bytes) → validator_at t b ≡ (if bytes_eq a b then ok v else validator_at s b)
unfolding pure
set_lem v s t h a e b =
    let stored : (v.operator_address, v) ∷ s ≡ t =
      ap (λ (p : Outcome (Unit {0}) × Stored). p.1) h in
    rw (← stored, ← text_bytes_ok v.operator_address a e) (found_first v s b)

abbrev pub staking_list : Keepers
staking_list = record {
  Context = ℤ;
  Stores = Stored;
  Rest = Unit;
  Coins = ℕ;
  block_height = λ h. h;
  with_block_height = λ c h. h;
  address_codec = text_codec;
  validator_address_codec = text_codec;
  staking_codec = text_codec;
  validators = λ c. iteration values_of;
  redelegations = λ c. iteration (λ s. []);
  unbonding_delegations = λ c. iteration (λ s. []);
  get_all_delegations = λ c s. ok [];
  set_redelegation = λ c r. pure tt;
  set_unbonding_delegation = λ c r. pure tt;
  get_validator = validator_at;
  set_validator = λ v s. pure tt ((v.operator_address, v) ∷ s);
  apply_and_return_validator_set_updates = λ c. pure tt;
  validator_keys = keys_of;
  address_from_validators_key = λ key. key;
  close_iterator = λ s. ok tt;
  withdraw_validator_commission = λ c a. pure tt;
  withdraw_delegation_rewards = λ c d a. pure tt;
  delete_all_validator_slash_events = λ c s. some s;
  delete_all_validator_historical_rewards = λ c s. some s;
  get_validator_outstanding_rewards_coins = λ c a s. ok 0;
  add_coins = λ a b. a + b;
  get_fee_pool = λ c s. ok (record { community_pool = 0; rest = tt });
  set_fee_pool = λ c p. pure tt;
  after_validator_created = λ c a. pure tt;
  before_delegation_created = λ c d a. pure tt;
  after_delegation_modified = λ c d a. pure tt;
  signing_infos = λ c. iteration (λ s. []);
  set_validator_signing_info = λ c a i. pure tt;
  set_validator_ok = set_lem;
}
