-- ===== src/Ante/Tests.antt =====
-- Runs of the ante handler on small transactions, and its theorems there.
use veranatest.Ante.Acceptance.{
  HandsOn, accepted_tx, group_proposal_timing_lem, validator_whitelist_lem,
}
use veranatest.Ante.Decorators.{ExecAllowed, Stops, ValidatorAllowed}
use veranatest.Registry.Handlers.{
  is_validator_whitelisted, matches_operator, new_validator, onboard_validator,
}
use veranatest.Ante.Admission.{LetIn, accepted_tx_origin}
use veranatest.Registry.Genesis.{init_genesis}
use veranatest.Registry.History.{onboard, run_calls}
use veranatest.Registry.Types.{
  GenesisState, Keeper, MsgOnboardValidator, Params, State, Validator, empty_params,
}
use veranatest.Sdk.Instances.{find_value, is_some, list_map, newest, option_item}
use veranatest.Prelude.{
  All, Bool, Bytes, Error, List, Outcome, Request, [], ascii, bytes_eq, bytes_eq_iff, err, false,
  gets, guard, inl, lift, none, ok, pure, refl, some, true, ℕ, ◌>>=◌, ◌∷◌, ◌≡◌, ◌⊎◌,
}
use veranatest.Sdk.Addresses.{AddressCodec}
use veranatest.Sdk.Group.{Proposal, accepted}
use veranatest.Sdk.Instances.Groups.{group_list, proposal, proposal_at}
use veranatest.Sdk.Tx.{
  AnteDecorator, AnteHandler, Runtime, Tx, create_validator, group_exec, other_msg,
}
use veranatest.Ante.{
  Env, SdkDecorators, check_exec, check_exec_msgs, check_whitelist, group_proposal_timing,
  new_ante_handler, validator_whitelist,
}

decode : Bytes → Outcome Bytes
decode a = ok a

abbrev codec : AddressCodec
codec = record {
  string_to_bytes = decode;
  bytes_to_string = decode;
  val_address_from_bech32 = decode;
  acc_address_from_bech32 = decode;
  equals = bytes_eq;
  equals_iff = bytes_eq_iff;
}

abbrev keeper : Keeper
keeper = record {
  address_codec = codec;
  authority = ascii "gov";
  params = option_item Params;
  validator = list_map Validator;
}

-- The stores of the two modules; the context is the block time.
abbrev Stores : Type 0
Stores = List Proposal × State keeper

chain : List (AnteDecorator ℕ Stores) → AnteHandler ℕ Stores
chain [] ctx tx simulate s = (ok ctx, s)
chain (d ∷ ds) ctx tx simulate s = d ctx tx simulate (chain ds) s

chain_lem :
    (d : AnteDecorator ℕ Stores) (ds : List (AnteDecorator ℕ Stores)) (ctx : ℕ) (tx : Tx)
    (simulate : Bool) (s : Stores)
    → chain (d ∷ ds) ctx tx simulate s ≡ d ctx tx simulate (chain ds) s
unfolding chain
chain_lem d ds ctx tx simulate s = refl

abbrev runtime : Runtime
runtime = record {
  Context = ℕ;
  Stores = Stores;
  block_time = λ ctx. ctx;
  chain_ante_decorators = chain;
  chain_cons = chain_lem;
}

abbrev env : Env
env = record {
  runtime = runtime;
  group_keeper = group_list;
  registry_keeper = keeper;
  groups = λ s. s.0;
  registry = λ s. s.1;
}

pass : AnteDecorator ℕ Stores
pass ctx tx simulate next s = next ctx tx simulate s

abbrev sdk : SdkDecorators env
sdk = record {
  set_up_context = pass;
  validate_basic = pass;
  deduct_fee = pass;
  increment_sequence = pass;
}

abbrev validator : Validator
validator = record {
  index = ascii "v1";
  member_id = ascii "m";
  operator_address = ascii "op1";
  consensus_pubkey = [];
  status = ascii "active";
  term_end = 0;
}

abbrev stores : Stores
stores = (
  proposal 1 accepted 5 ∷ [],
  record { params = none; validator = (ascii "v1", validator) ∷ []; events = [] },
)

abbrev good_tx : Tx
good_tx = group_exec 1 ∷ create_validator (ascii "op1") ∷ other_msg 0 ∷ []

abbrev handler : AnteHandler ℕ Stores
handler =
    chain (pass ∷ pass ∷ group_proposal_timing env ∷ validator_whitelist env ∷ pass ∷ pass ∷ [])

made : new_ante_handler env true true sdk ≡ ok handler
unfolding new_ante_handler
made = refl

run_good : handler 9 good_tx false stores ≡ (ok 9, stores)
unfolding chain pass group_proposal_timing validator_whitelist ◌>>=◌ gets check_exec_msgs check_exec
    check_whitelist is_validator_whitelisted matches_operator newest bytes_eq proposal_at
run_good = refl

-- Too early for the proposal.
run_early : handler 4 good_tx false stores ≡ (err (Error.invalid_request Request.too_early), stores)
unfolding chain pass group_proposal_timing validator_whitelist ◌>>=◌ gets check_exec_msgs check_exec
    check_whitelist is_validator_whitelisted matches_operator newest bytes_eq proposal_at
run_early = refl

run_unlisted :
    handler 9 (create_validator (ascii "op2") ∷ []) false stores ≡ (err Error.unauthorized, stores)
unfolding chain pass group_proposal_timing validator_whitelist ◌>>=◌ gets check_exec_msgs check_exec
    check_whitelist is_validator_whitelisted matches_operator newest bytes_eq proposal_at
run_unlisted = refl

pass-HandsOn : HandsOn env pass
unfolding pass
pass-HandsOn ctx tx simulate next s t c h = (ctx, s, h, refl, refl, refl)

accepted_tx_example :
    All (ExecAllowed env 9 stores) good_tx × All (ValidatorAllowed env stores) good_tx
accepted_tx_example =
    accepted_tx env true true sdk handler 9 good_tx false stores stores 9 pass-HandsOn pass-HandsOn
      made run_good

group_proposal_timing_lem_example :
    (All (ExecAllowed env 4 stores) good_tx
      × (group_proposal_timing env 4 good_tx false (chain []) stores
          ≡ chain [] 4 good_tx false stores))
    ⊎ ((¬ (All (ExecAllowed env 4 stores) good_tx))
        × Stops env (group_proposal_timing env 4 good_tx false (chain []) stores).0
        × ((group_proposal_timing env 4 good_tx false (chain []) stores).1 ≡ stores))
group_proposal_timing_lem_example = group_proposal_timing_lem env 4 good_tx false (chain []) stores

validator_whitelist_lem_example :
    (All (ValidatorAllowed env stores) good_tx
      × (validator_whitelist env 9 good_tx false (chain []) stores
          ≡ chain [] 9 good_tx false stores))
    ⊎ ((¬ (All (ValidatorAllowed env stores) good_tx))
        × (validator_whitelist env 9 good_tx false (chain []) stores
            ≡ (err Error.unauthorized, stores)))
validator_whitelist_lem_example = validator_whitelist_lem env 9 good_tx false (chain []) stores

-- The chain starts with one validator, and the authority onboards a second.
abbrev genesis : GenesisState
genesis = record { params = empty_params; validator_map = validator ∷ [] }

abbrev empty_registry : State keeper
empty_registry = record { params = none; validator = []; events = [] }

abbrev at_start : State keeper
at_start = record {
  params = some empty_params;
  validator = (ascii "v1", validator) ∷ [];
  events = [];
}

run_init : init_genesis keeper genesis empty_registry ≡ (ok tt, at_start)
unfolding init_genesis ◌>>=◌ pure
run_init = refl

abbrev newcomer : MsgOnboardValidator
newcomer = record {
  creator = ascii "gov";
  index = ascii "v2";
  member_id = ascii "m";
  operator_address = ascii "op2";
  consensus_pubkey = [];
  status = ascii "active";
  term_end = 7;
}

abbrev later : Stores
later = ([], run_calls keeper (onboard newcomer ∷ []) at_start)

abbrev create_tx : Tx
create_tx = create_validator (ascii "op2") ∷ []

run_create : handler 9 create_tx false later ≡ (ok 9, later)
unfolding chain pass group_proposal_timing ◌>>=◌ gets check_exec_msgs validator_whitelist
    check_whitelist is_validator_whitelisted newest run_calls onboard_validator lift decode guard
    bytes_eq is_some find_value matches_operator new_validator
run_create = refl

fresh : (key : Bytes) → find_value {V = Validator} [] key ≡ none
unfolding find_value
fresh key = refl

accepted_tx_origin_example : LetIn keeper genesis (onboard newcomer ∷ []) (ascii "op2")
accepted_tx_origin_example =
    accepted_tx_origin env true true sdk handler 9 create_tx false later later 9 genesis
      empty_registry at_start (onboard newcomer ∷ []) (ascii "op2") pass-HandsOn pass-HandsOn made
      run_create fresh run_init refl (inl refl)
