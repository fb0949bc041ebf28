-- ===== src/Registry/Handlers.antt =====
-- The message handlers and the whitelist check of x/validatorregistry:
-- keeper/msg_server_onboard_validator.go, keeper/msg_update_params.go, keeper/keeper.go.
use veranatest.Prelude.{
  Bool, Bytes, Error, Exec, Invalid, Outcome, [], ascii, bytes_eq, err, false, gets, guard,
  if◌then◌else◌, is_empty, lift, not, ok, or_error, panicked, true, ◌++◌, ◌>>=◌, ◌>>◌, ◌∷◌,
}
use veranatest.Registry.Types.{
  Event, Keeper, MsgOnboardValidator, MsgUpdateParams, Params, State, Validator, validate_params,
}

-- `k.Validator.Set(ctx, key, v)`
unfoldable pub set_validator : (k : Keeper) → Bytes → Validator → Exec (State k) Unit
set_validator k key v s = elim (k.validator.set s.validator key v) [
  | ok t ↦ (ok tt, record s { validator = t })
  | err e ↦ (err e, s)
  | panicked ↦ (panicked, s)
]

-- `k.Params.Set(ctx, p)`
unfoldable pub set_params : (k : Keeper) → Params → Exec (State k) Unit
set_params k p s = elim (k.params.set s.params p) [
  | ok t ↦ (ok tt, record s { params = t })
  | err e ↦ (err e, s)
  | panicked ↦ (panicked, s)
]

-- `k.Validator.Has(ctx, index)`
unfoldable pub has_validator : (k : Keeper) → Bytes → State k → Outcome Bool
has_validator k index s = k.validator.has s.validator index

unfoldable pub emit_event : (k : Keeper) → Event → Exec (State k) Unit
emit_event k e s = (ok tt, record s { events = s.events ++ (e ∷ []) })

unfoldable pub new_validator : MsgOnboardValidator → Validator
new_validator msg = record {
  index = msg.index;
  member_id = msg.member_id;
  operator_address = msg.operator_address;
  consensus_pubkey = msg.consensus_pubkey;
  status = msg.status;
  term_end = msg.term_end;
}

unfoldable pub onboarded_event : MsgOnboardValidator → Event
onboarded_event msg = record {
  kind = ascii "validator_onboarded";
  attributes =
      (ascii "index", msg.index)
      ∷ (ascii "member_id", msg.member_id)
      ∷ (ascii "operator_address", msg.operator_address)
      ∷ (ascii "status", msg.status)
      ∷ [];
}

unfoldable pub onboard_validator : (k : Keeper) → MsgOnboardValidator → Exec (State k) Unit
unfolding set_validator has_validator emit_event
onboard_validator k msg = do
  creator_addr ← lift (k.address_codec.string_to_bytes msg.creator)
  guard (k.address_codec.equals creator_addr k.authority) Error.invalid_signer
  guard (not (is_empty msg.index)) (Error.invalid_validator Invalid.empty_index)
  guard (not (is_empty msg.member_id)) (Error.invalid_validator Invalid.empty_member_id)
  guard (not (is_empty msg.operator_address))
      (Error.invalid_validator Invalid.empty_operator_address)
  guard (not (is_empty msg.status)) (Error.invalid_validator Invalid.empty_status)
  exists ← gets (has_validator k msg.index)
  guard (not exists) (Error.invalid_validator Invalid.already_exists)
  lift (
      or_error (Error.invalid_validator Invalid.bad_operator_address)
        (k.address_codec.val_address_from_bech32 msg.operator_address))
  set_validator k msg.index (new_validator msg)
  emit_event k (onboarded_event msg)

unfoldable pub update_params : (k : Keeper) → MsgUpdateParams → Exec (State k) Unit
unfolding set_params validate_params
update_params k req = do
  authority ← lift (k.address_codec.string_to_bytes req.authority)
  guard (bytes_eq k.authority authority) Error.invalid_signer
  lift (validate_params req.params)
  set_params k req.params

-- The callback of `IsValidatorWhitelisted`: stop at the first match.
unfoldable pub matches_operator : Bytes → Bytes → Validator → Bool → Bool × Bool
matches_operator operator_address key val found =
    if bytes_eq val.operator_address operator_address then (true, true) else (false, found)

-- The error of `Walk` is dropped.
unfoldable pub is_validator_whitelisted : (k : Keeper) → State k → Bytes → Bool
is_validator_whitelisted k s operator_address =
    (k.validator.walk Bool s.validator (matches_operator operator_address) false).0
