-- ===== src/Ante/Admission.antt =====
-- The whitelist from genesis to a transaction: where a validator that a transaction creates was let in.
use veranatest.Ante.{Env, SdkDecorators, new_ante_handler}
use veranatest.Ante.Acceptance.{HandsOn, accepted_tx}
use veranatest.Ante.Decorators.{ValidatorAllowed}
use veranatest.Registry.Genesis.RoundTrip.{init_genesis_ok}
use veranatest.Sdk.Instances.Networks.{created}
use veranatest.Sdk.Tx.{AnteHandler, Tx, create_validator}
use veranatest.Registry.Types.{GenesisState, Keeper, MsgOnboardValidator, State, Validator}
use veranatest.Registry.Whitelist.{Whitelisted-sound}
use veranatest.Registry.History.{Call, onboard, run_calls, run_calls_origin}
use veranatest.Registry.Genesis.{init_genesis}
use veranatest.Registry.Handlers.{is_validator_whitelisted, new_validator}
use veranatest.Prelude.{
  Bool, Bytes, List, Listed, Listed-All, ap, inl, inr, none, ok, sym, true, ◌∙◌, ◌≡◌, ◌⊎◌,
}

-- The genesis state has a record with the operator, or a message of the authority onboarded one.
abbrev pub LetIn : Keeper → GenesisState → List Call → Bytes → Type 0
LetIn k gs cs a =
    ((v : Validator) × Listed v gs.validator_map × (v.operator_address ≡ a))
    ⊎ ((msg : MsgOnboardValidator) × Listed (onboard msg) cs
        × (k.address_codec.string_to_bytes msg.creator ≡ ok k.authority)
        × (msg.operator_address ≡ a))

pub whitelisted_origin :
    (k : Keeper) (gs : GenesisState) (s0 s1 : State k) (cs : List Call) (a : Bytes)
    → ((key : Bytes) → k.validator.lookup s0.validator key ≡ none)
    → init_genesis k gs s0 ≡ (ok tt, s1)
    → is_validator_whitelisted k (run_calls k cs s1) a ≡ true
    → LetIn k gs cs a
unfolding new_validator
whitelisted_origin k gs s0 s1 cs a empty started h =
    let (key, v, found, same) = Whitelisted-sound k (run_calls k cs s1) a h in
    elim (run_calls_origin k cs s1 key v found) [
      | inl before ↦ elim ((init_genesis_ok k gs s0 s1 started).0 key) [
        | inl (w, l, i, stored) ↦
            let one : w ≡ v = cc in
            inl (w, l, ap (λ (x : Validator). x.operator_address) one ∙ same)
        | inr (n, unchanged) ↦ absurd (let fresh = empty key in cc)
      ]
      | inr (msg, l, by, at, e) ↦
          inr (msg, l, by, sym (ap (λ (x : Validator). x.operator_address) e) ∙ same)
    ]

module _ (env : Env) where
  -- Where the store of the registry is what InitGenesis of a genesis state made of an empty registry,
  -- and then any sequence of the module's messages, each MsgCreateValidator that stands itself among the
  -- messages of a transaction that the chain's handler accepts is for an operator of a record of that
  -- genesis state, or of an OnboardValidator message of the sequence whose creator is the authority.
  -- Nothing is said of messages that another message carries. The decorators of the SDK that stand
  -- first hand an accepted transaction on with the block time and the two modules' stores as they were.
  pub accepted_tx_origin :
      (has_bank_keeper has_sign_mode_handler : Bool) (sdk : SdkDecorators env)
      (handler : AnteHandler env.runtime.Context env.runtime.Stores) (ctx : env.runtime.Context)
      (tx : Tx) (simulate : Bool) (s t : env.runtime.Stores) (c : env.runtime.Context)
      (gs : GenesisState) (s0 s1 : State env.registry_keeper) (cs : List Call) (a : Bytes)
      → HandsOn env sdk.set_up_context
      → HandsOn env sdk.validate_basic
      → new_ante_handler env has_bank_keeper has_sign_mode_handler sdk ≡ ok handler
      → handler ctx tx simulate s ≡ (ok c, t)
      → ((key : Bytes) → env.registry_keeper.validator.lookup s0.validator key ≡ none)
      → init_genesis env.registry_keeper gs s0 ≡ (ok tt, s1)
      → env.registry s ≡ run_calls env.registry_keeper cs s1
      → Listed (create_validator a) tx
      → LetIn env.registry_keeper gs cs a
  accepted_tx_origin b m sdk handler ctx tx simulate s t c gs s0 s1 cs a setup basic made h empty
        started now l =
      let (execs, created) =
        accepted_tx env b m sdk handler ctx tx simulate s t c setup basic made h in
      let allowed = Listed-All (ValidatorAllowed env s) tx created (create_validator a) l in
      whitelisted_origin env.registry_keeper gs s0 s1 cs a empty started
        (ap (λ r. is_validator_whitelisted env.registry_keeper r a) (sym now) ∙ allowed)
