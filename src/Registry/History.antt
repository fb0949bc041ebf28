-- ===== src/Registry/History.antt =====
-- Sequences of the messages of x/validatorregistry: what every history of the registry keeps.
use veranatest.Prelude.{
  Bool-cases, Bytes, Exec, List, Listed, [], ap, arith, bytes_eq, bytes_eq→eq, inl, inr, ok, refl,
  some, succeeded, sym, ◌∙◌, ◌∷◌, ◌≡◌, ◌≢◌, ◌⊎◌,
}
use veranatest.Registry.Types.{Keeper, MsgOnboardValidator, MsgUpdateParams, State, Validator}
use veranatest.Registry.Handlers.{new_validator, onboard_validator, update_params}
use veranatest.Registry.Onboarding.{Acceptable, onboard-FailsClean, onboard_ok}
use veranatest.Registry.Params.{update-FailsClean, update_ok}
use veranatest.Registry.Whitelist.{lookup-onboard}

-- The messages of the module.
pub data Call : Type 0 where
  onboard : MsgOnboardValidator → Call
  update : MsgUpdateParams → Call

unfoldable pub run_call : (k : Keeper) → Call → Exec (State k) Unit
run_call k (onboard msg) = onboard_validator k msg
run_call k (update req) = update_params k req

-- The state after a sequence of messages, the refused ones included.
unfoldable pub run_calls : (k : Keeper) → List Call → State k → State k
unfolding run_call
run_calls k [] s = s
run_calls k (c ∷ cs) s = run_calls k cs (run_call k c s).1

-- A record as `OnboardValidator` stores it: under its own index, with its fields given.
pub record IsSound (k : Keeper) (key : Bytes) (v : Validator) : Type 0 where
  pub keyed : v.index ≡ key
  pub has_key : key ≢ []
  pub has_member_id : v.member_id ≢ []
  pub has_operator_address : v.operator_address ≢ []
  pub has_status : v.status ≢ []
  pub operator_address_parses :
      (a : Bytes) × (k.address_codec.val_address_from_bech32 v.operator_address ≡ ok a)

pub record IsWellFormed (k : Keeper) (s : State k) : Type 0 where
  pub at_key :
      (key : Bytes) (v : Validator) → k.validator.lookup s.validator key ≡ some v → IsSound k key v

-- What one message does to the record at a key: nothing, or it is an accepted message that puts its
-- own record where there was none.
abbrev pub Origin : (k : Keeper) → Call → State k → State k → Bytes → Type 0
Origin k c s t key =
    (k.validator.lookup t.validator key ≡ k.validator.lookup s.validator key)
    ⊎ ((msg : MsgOnboardValidator) × (c ≡ onboard msg)
        × (key ≡ msg.index)
        × Acceptable k msg s
        × (k.validator.lookup t.validator key ≡ some (new_validator msg)))

onboard-Origin :
    (k : Keeper) (msg : MsgOnboardValidator) (s t : State k) (key : Bytes)
    → onboard_validator k msg s ≡ (ok tt, t)
    → Origin k (onboard msg) s t key
onboard-Origin k msg s t key h =
    let (a, o) = onboard_ok k msg s t h in
    let after = lookup-onboard k msg s t o key in
    elim (Bool-cases (bytes_eq msg.index key)) [
      | inl e ↦ inr (msg, refl, sym (bytes_eq→eq _ _ e), a, ground arith)
      | inr e ↦ inl (ground arith)
    ]

pub call-Origin :
    (k : Keeper) (c : Call) (s : State k) (key : Bytes) → Origin k c s (run_call k c s).1 key
unfolding run_call
call-Origin k (onboard msg) s key = elim ((onboard-FailsClean k msg).at s) [
  | inl good ↦ onboard-Origin k msg s (onboard_validator k msg s).1 key (succeeded _ good)
  | inr same ↦ inl (ap (λ (x : State k). k.validator.lookup x.validator key) same)
]
call-Origin k (update req) s key = elim ((update-FailsClean k req).at s) [
  | inl good ↦ inl (
      ap (λ x. k.validator.lookup x key)
        (update_ok k req s (update_params k req s).1 (succeeded _ good)).same_validators)
  | inr same ↦ inl (ap (λ (x : State k). k.validator.lookup x.validator key) same)
]

call_keeps :
    (k : Keeper) (c : Call) (s : State k) (key : Bytes) (v : Validator)
    → k.validator.lookup s.validator key ≡ some v
    → k.validator.lookup (run_call k c s).1.validator key ≡ some v
call_keeps k c s key v h = elim (call-Origin k c s key) [
  | inl same ↦ same ∙ h
  | inr (msg, e, at, a, after) ↦ cc (ap (k.validator.lookup s.validator) at, a.is_new)
]

-- No sequence of messages changes or removes a record.
pub run_calls_keep :
    (k : Keeper) (cs : List Call) (s : State k) (key : Bytes) (v : Validator)
    → k.validator.lookup s.validator key ≡ some v
    → k.validator.lookup (run_calls k cs s).validator key ≡ some v
unfolding run_calls
run_calls_keep k [] s key v h = h
run_calls_keep k (c ∷ cs) s key v h =
    run_calls_keep k cs (run_call k c s).1 key v (call_keeps k c s key v h)

-- Every record of a later state was there at the start, or is the record of a message of the
-- sequence whose creator is the authority.
pub run_calls_origin :
    (k : Keeper) (cs : List Call) (s : State k) (key : Bytes) (v : Validator)
    → k.validator.lookup (run_calls k cs s).validator key ≡ some v
    → (k.validator.lookup s.validator key ≡ some v)
      ⊎ ((msg : MsgOnboardValidator) × Listed (onboard msg) cs
          × (k.address_codec.string_to_bytes msg.creator ≡ ok k.authority)
          × (key ≡ msg.index)
          × (v ≡ new_validator msg))
unfolding run_calls
run_calls_origin k [] s key v h = inl h
run_calls_origin k (c ∷ cs) s key v h = elim (run_calls_origin k cs (run_call k c s).1 key v h) [
  | inl after ↦ elim (call-Origin k c s key) [
    | inl same ↦ inl (sym same ∙ after)
    | inr (msg, e, at, a, stored) ↦ inr (msg, inl (sym e), a.by_authority, at, cc)
  ]
  | inr (msg, l, a, at, e) ↦ inr (msg, inr l, a, at, e)
]

call-IsWellFormed :
    (k : Keeper) (c : Call) (s : State k) → IsWellFormed k s → IsWellFormed k (run_call k c s).1
unfolding new_validator
call-IsWellFormed k c s w = record {
  at_key = λ key v h. elim (call-Origin k c s key) [
    | inl same ↦ w.at_key key v (sym same ∙ h)
    | inr (msg, e, at, a, stored) ↦
        let same : v ≡ new_validator msg = cc in
        rw (same, at)
          (record {
            keyed = refl;
            has_key = a.has_index;
            has_member_id = a.has_member_id;
            has_operator_address = a.has_operator_address;
            has_status = a.has_status;
            operator_address_parses = a.operator_address_parses;
          })
  ];
}

-- Every sequence of messages keeps the registry well-formed.
pub run_calls-IsWellFormed :
    (k : Keeper) (cs : List Call) (s : State k)
    → IsWellFormed k s
    → IsWellFormed k (run_calls k cs s)
unfolding run_calls
run_calls-IsWellFormed k [] s w = w
run_calls-IsWellFormed k (c ∷ cs) s w =
    run_calls-IsWellFormed k cs (run_call k c s).1 (call-IsWellFormed k c s w)
