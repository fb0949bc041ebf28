-- ===== src/Gateway/Tests.antt =====
-- The gateway of x/validatorregistry over a small registry: runs, and the theorems there. A request
-- is the state of the node that answers it.
use veranatest.Sdk.Addresses.{AddressCodec}
use veranatest.Sdk.Collections.{Pages}
use veranatest.Prelude.{
  All, Bytes, Error, List, Outcome, [], ascii, bytes_eq, bytes_eq_iff, err, gets, guard,
  if◌then◌else◌, lift, none, ok, panicked, refl, some, ◌>>=◌, ◌∷◌, ◌≡◌, ◌⊎◌,
}
use veranatest.Sdk.HttpGateway.{GatewayRuntime}
use veranatest.Gateway.{PathParams, answer, answer_locally, respond}
use veranatest.Gateway.Registry.{
  Reply, Service, local_get_validator_handler, local_list_validator_handler,
  local_request_get_validator, local_request_list_validator, query_server,
  register_query_handler_client, register_query_handler_server, validator_reply, validators_reply,
  word_index,
}
use veranatest.Gateway.Responses.{RespondsOnce, registered-RespondsOnce, served-onboard}
use veranatest.Registry.Handlers.{new_validator, onboard_validator, onboarded_event}
use veranatest.Registry.Queries.{get_validator, list_validator, query_error}
use veranatest.Sdk.Instances.{find_value, is_some, item_get, list_map, newest, option_item}
use veranatest.Registry.Types.{Keeper, MsgOnboardValidator, Params, State, Validator}

abbrev codec : AddressCodec
codec = record {
  string_to_bytes = ok;
  bytes_to_string = ok;
  val_address_from_bech32 = ok;
  acc_address_from_bech32 = ok;
  equals = bytes_eq;
  equals_iff = bytes_eq_iff;
}

abbrev keeper : Keeper
keeper = record {
  address_codec = codec;
  authority = ascii "gov";
  params = option_item Params;
  validator = list_map Validator;
}

abbrev all_of :
    {T : Type 0} → (Bytes → Validator → Outcome T) → List (Bytes × Validator) → Outcome (List T)
all_of f [] = ok []
all_of f ((key, v) ∷ rest) = elim (f key v) [
  | ok x ↦ elim (all_of f rest) [ ok xs ↦ ok (x ∷ xs) | err e ↦ err e | panicked ↦ panicked ]
  | err e ↦ err e
  | panicked ↦ panicked
]

abbrev pages : Pages keeper.validator
pages = record {
  PageRequest = Unit {0};
  PageResponse = Unit {0};
  collection_paginate = λ {T} s req f. elim (all_of f (newest s)) [
    | ok xs ↦ ok (xs, tt)
    | err e ↦ err e
    | panicked ↦ panicked
  ];
}

abbrev start : State keeper
start = record { params = none; validator = []; events = [] }

abbrev message : MsgOnboardValidator
message = record {
  creator = ascii "gov";
  index = ascii "v1";
  member_id = ascii "m";
  operator_address = ascii "op1";
  consensus_pubkey = [];
  status = ascii "active";
  term_end = 7;
}

abbrev onboarded_state : State keeper
onboarded_state = record {
  params = none;
  validator = (ascii "v1", new_validator message) ∷ [];
  events = onboarded_event message ∷ [];
}

run_onboard : onboard_validator keeper message start ≡ (ok tt, onboarded_state)
unfolding onboard_validator ◌>>=◌ lift guard gets bytes_eq find_value is_some
run_onboard = refl

-- The responses that were written, the last one first.
abbrev machine : GatewayRuntime (Reply (Unit {0}))
machine = record {
  Context = State keeper;
  Request = State keeper;
  Marshaler = Unit {0};
  Form = Unit {0};
  Writer = List (Outcome (Reply (Unit {0})));
  Metadata = Unit {0};
  no_metadata = tt;
  join_metadata = λ a b. tt;
  request_context = λ req. req;
  with_cancel = λ ctx. ctx;
  with_server_transport_stream = λ ctx. ctx;
  with_server_metadata = λ ctx md. ctx;
  marshaler_for_request = λ req. (tt, tt);
  annotate_context = λ ctx req. ok ctx;
  annotate_incoming_context = λ ctx req. ok ctx;
  parse_form = λ req. ok tt;
  parse_string = ok;
  http_error = λ ctx outbound req e w. err e ∷ w;
  forward_response_message = λ ctx outbound req resp w. ok resp ∷ w;
}

abbrev server : Service (Unit {0}) machine
server = query_server keeper pages (λ ctx. ctx) tt

abbrev at_index : Bytes → PathParams
at_index index name = if bytes_eq name word_index then some index else none

run_missing :
    local_get_validator_handler (Unit {0}) machine server onboarded_state (at_index (ascii "v2")) []
    ≡ (ok tt, err Error.not_found ∷ [])
unfolding local_get_validator_handler answer_locally answer local_request_get_validator query_server
    get_validator query_error respond bytes_eq find_value item_get
run_missing = refl

run_no_parameter :
    local_get_validator_handler (Unit {0}) machine server onboarded_state (λ name. none) []
    ≡ (ok tt, err Error.invalid_argument ∷ [])
unfolding local_get_validator_handler answer_locally answer local_request_get_validator respond
run_no_parameter = refl

run_list :
    local_list_validator_handler (Unit {0}) machine ok server onboarded_state (λ name. none) []
    ≡ (ok tt, ok (validators_reply (new_validator message ∷ [], tt)) ∷ [])
unfolding local_list_validator_handler answer_locally answer local_request_list_validator
    query_server list_validator respond newest
run_list = refl

found_index : at_index (ascii "v1") word_index ≡ some (ascii "v1")
unfolding bytes_eq
found_index = refl

served-onboard_example :
    (local_get_validator_handler
        (Unit {0})
        machine
        server
        onboarded_state
        (at_index (ascii "v1"))
        []
      ≡ (ok tt, ok (validator_reply (new_validator message)) ∷ []))
    ⊎ ((local_get_validator_handler
            (Unit {0})
            machine
            server
            onboarded_state
            (at_index (ascii "v1"))
            []
          ≡ (ok tt, err Error.internal ∷ []))
        ⊎ (local_get_validator_handler
              (Unit {0})
              machine
              server
              onboarded_state
              (at_index (ascii "v1"))
              []
            ≡ (panicked, [])))
served-onboard_example =
    served-onboard keeper pages machine (λ ctx. ctx) message start onboarded_state onboarded_state
      (at_index (ascii "v1")) (ascii "v1") [] run_onboard refl found_index refl

registered-RespondsOnce_example :
    All (RespondsOnce machine) (register_query_handler_server (Unit {0}) machine ok server []).1
    × All (RespondsOnce machine) (register_query_handler_client (Unit {0}) machine ok server []).1
registered-RespondsOnce_example = registered-RespondsOnce machine ok server [] tt
