-- ===== src/Registry/Tests.antt =====
-- Runs of x/validatorregistry on a small registry, and its theorems there.
use veranatest.Registry.Refinement.{answers, run_calls_refines, spec_calls}
use veranatest.Registry.Genesis.{append_validator, export_genesis, init_genesis, validate_genesis}
use veranatest.Registry.Genesis.Indices.{DistinctIndices, validate_genesis_iff}
use veranatest.Registry.Handlers.{
  is_validator_whitelisted, matches_operator, new_validator, onboard_validator, onboarded_event,
  update_params,
}
use veranatest.Registry.History.{
  Call, IsWellFormed, onboard, run_calls, run_calls-IsWellFormed, run_calls_keep, run_calls_origin,
  update,
}
use veranatest.Registry.Onboarding.{
  Acceptable, Onboards, onboard-FailsClean, onboard_accepts, onboard_ok, onboarded,
}
use veranatest.Registry.Types.{
  GenesisState, Keeper, MsgOnboardValidator, MsgUpdateParams, Params, State, Validator,
  empty_params,
}
use veranatest.Registry.Whitelist.{
  Whitelisted-complete, Whitelisted-sound, is_validator_whitelisted-onboard,
}
use veranatest.Sdk.Instances.{
  find_value, is_some, item_get, list_map, list_map-IsReadable, newest, option_item,
}
use veranatest.Prelude.{
  Bytes, Error, FailsClean, Invalid, List, Listed, Outcome, [], arith, ascii, bytes_eq,
  bytes_eq_iff, err, false, gets, guard, if◌then◌else◌, is_empty, lift, none, ok, pure, refl, some,
  true, ◌>>=◌, ◌||◌, ◌↔◌, ◌∷◌, ◌≡◌, ◌⊎◌,
}
use veranatest.Sdk.Addresses.{AddressCodec}

decode : Bytes → Outcome Bytes
decode a = if is_empty a then err (Error.foreign 1) else ok a

abbrev codec : AddressCodec
codec = record {
  string_to_bytes = decode;
  bytes_to_string = decode;
  val_address_from_bech32 = decode;
  acc_address_from_bech32 = decode;
  equals = bytes_eq;
  equals_iff = bytes_eq_iff;
}

abbrev keeper : Keeper
keeper = record {
  address_codec = codec;
  authority = ascii "gov";
  params = option_item Params;
  validator = list_map Validator;
}

abbrev start : State keeper
start = record { params = none; validator = []; events = [] }

abbrev message : Bytes → Bytes → MsgOnboardValidator
message index operator = record {
  creator = ascii "gov";
  index = index;
  member_id = ascii "m";
  operator_address = operator;
  consensus_pubkey = [];
  status = ascii "active";
  term_end = 7;
}

abbrev first : MsgOnboardValidator
first = message (ascii "v1") (ascii "op1")

abbrev second : MsgOnboardValidator
second = message (ascii "v1") (ascii "op2")

abbrev by_stranger : MsgOnboardValidator
by_stranger = record first { creator = ascii "eve" }

abbrev after_first : State keeper
after_first = record {
  params = none;
  validator = (ascii "v1", new_validator first) ∷ [];
  events = onboarded_event first ∷ [];
}

run_first : onboard_validator keeper first start ≡ (ok tt, after_first)
unfolding onboard_validator ◌>>=◌ lift guard gets decode bytes_eq find_value is_some
run_first = refl

-- A second record under the same index is refused.
run_second :
    onboard_validator keeper second after_first
    ≡ (err (Error.invalid_validator Invalid.already_exists), after_first)
unfolding onboard_validator ◌>>=◌ lift guard gets decode bytes_eq find_value is_some
run_second = refl

run_stranger : onboard_validator keeper by_stranger start ≡ (err Error.invalid_signer, start)
unfolding onboard_validator ◌>>=◌ lift guard gets decode bytes_eq find_value is_some
run_stranger = refl

abbrev request : MsgUpdateParams
request = record { authority = ascii "gov"; params = empty_params }

run_update :
    update_params keeper request start ≡ (ok tt, record start { params = some empty_params })
unfolding update_params ◌>>=◌ lift guard decode bytes_eq
run_update = refl

abbrev genesis : GenesisState
genesis = record { params = empty_params; validator_map = new_validator first ∷ [] }

abbrev loaded : State keeper
loaded = record {
  params = some empty_params;
  validator = (ascii "v1", new_validator first) ∷ [];
  events = [];
}

run_init : init_genesis keeper genesis start ≡ (ok tt, loaded)
unfolding init_genesis ◌>>=◌ pure new_validator
run_init = refl

run_export : export_genesis keeper loaded ≡ ok genesis
unfolding export_genesis item_get newest append_validator
run_export = refl

onboard_ok_example : Acceptable keeper first start × Onboards keeper first start after_first
onboard_ok_example = onboard_ok keeper first start after_first run_first

Acceptable-first : Acceptable keeper first start
Acceptable-first = onboard_ok_example.0

is_new_first : keeper.validator.has start.validator first.index ≡ ok false
unfolding find_value is_some
is_new_first = refl

onboard_accepts_example :
    onboard_validator keeper first start
    ≡ (ok tt, onboarded keeper first start after_first.validator)
onboard_accepts_example =
    onboard_accepts keeper first start after_first.validator Acceptable-first is_new_first refl

onboard-FailsClean_example : FailsClean (onboard_validator keeper by_stranger)
onboard-FailsClean_example = onboard-FailsClean keeper by_stranger

is_validator_whitelisted-onboard_example :
    is_validator_whitelisted keeper after_first (ascii "op1")
    ≡ (bytes_eq (ascii "op1") (ascii "op1") || is_validator_whitelisted keeper start (ascii "op1"))
is_validator_whitelisted-onboard_example =
    is_validator_whitelisted-onboard keeper first start after_first (ascii "op1") run_first
      (list_map-IsReadable Validator []) (list_map-IsReadable Validator after_first.validator)

found_first : is_validator_whitelisted keeper after_first (ascii "op1") ≡ true
unfolding is_validator_whitelisted matches_operator newest bytes_eq new_validator
found_first = refl

Whitelisted-complete_example : is_validator_whitelisted keeper after_first (ascii "op1") ≡ true
Whitelisted-complete_example =
    Whitelisted-complete keeper after_first (ascii "op1")
      (list_map-IsReadable Validator after_first.validator)
      (Whitelisted-sound keeper after_first (ascii "op1") found_first)

abbrev calls : List Call
calls = onboard second ∷ update request ∷ onboard (message (ascii "v2") (ascii "op2")) ∷ []

stored_first :
    keeper.validator.lookup after_first.validator (ascii "v1") ≡ some (new_validator first)
unfolding find_value bytes_eq
stored_first = refl

run_calls_keep_example :
    keeper.validator.lookup (run_calls keeper calls after_first).validator (ascii "v1")
    ≡ some (new_validator first)
run_calls_keep_example =
    run_calls_keep keeper calls after_first (ascii "v1") (new_validator first) stored_first

run_calls_origin_example :
    (keeper.validator.lookup after_first.validator (ascii "v1") ≡ some (new_validator first))
    ⊎ ((msg : MsgOnboardValidator) × Listed (onboard msg) calls
        × (decode msg.creator ≡ ok (ascii "gov"))
        × (ascii "v1" ≡ msg.index)
        × (new_validator first ≡ new_validator msg))
run_calls_origin_example =
    run_calls_origin keeper calls after_first (ascii "v1") (new_validator first)
      run_calls_keep_example

start-IsWellFormed : IsWellFormed keeper start
unfolding find_value
start-IsWellFormed = record { at_key = λ key v h. ground arith }

run_calls-IsWellFormed_example : IsWellFormed keeper (run_calls keeper calls start)
run_calls-IsWellFormed_example = run_calls-IsWellFormed keeper calls start start-IsWellFormed

validate_genesis_iff_example :
    ((validate_genesis genesis ≡ ok tt) ↔ DistinctIndices genesis.validator_map)
    × ((validate_genesis genesis ≡ ok tt) ⊎ (validate_genesis genesis ≡ err Error.duplicated_index))
validate_genesis_iff_example = validate_genesis_iff genesis

run_calls_refines_example :
    is_validator_whitelisted keeper (run_calls keeper calls after_first) (ascii "op2")
    ≡ spec_calls
        (answers keeper calls after_first)
        (λ a. is_validator_whitelisted keeper after_first a)
        (ascii "op2")
run_calls_refines_example =
    run_calls_refines keeper (list_map-IsReadable Validator) calls after_first (ascii "op2")
