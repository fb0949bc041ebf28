-- ===== src/Ante.antt =====
-- ante/: the checks of a transaction before it runs. group_proposal_timing.go,
-- validator_whitelist.go and ante.go.
pub mod Decorators
pub mod Acceptance
pub mod Admission
mod Tests
use veranatest.Prelude.{
  Bool, Error, List, Outcome, Request, [], err, gets, if◌then◌else◌, ltb, not, ok, panicked, ℕ,
  ◌>>◌, ◌∷◌,
}
use veranatest.Sdk.Group.{GroupKeeper, is_accepted}
use veranatest.Sdk.Tx.{
  AnteDecorator, AnteHandler, Msg, Runtime, create_validator, group_exec, other_msg,
}
use veranatest.Registry.Types.{Keeper, State}
use veranatest.Registry.Handlers.{is_validator_whitelisted}

-- The runtime with the keepers that the decorators hold, and what they read in the stores.
pub record Env : Type 1 where
  pub runtime : Runtime
  pub group_keeper : GroupKeeper
  pub registry_keeper : Keeper
  pub groups : runtime.Stores → group_keeper.Store
  pub registry : runtime.Stores → State registry_keeper

module _ (env : Env) where
  -- The body of the loop of `GroupProposalTimingDecorator.AnteHandle` for a `MsgExec`.
  unfoldable pub check_exec : ℕ → ℕ → env.runtime.Stores → Outcome (Unit {0})
  check_exec current_time proposal_id s =
      elim (env.group_keeper.proposal (env.groups s) proposal_id) [
        | ok proposal ↦
            if ltb current_time proposal.voting_period_end
            then err (Error.invalid_request Request.too_early)
            else if not (is_accepted proposal.status)
            then err (Error.invalid_request Request.not_accepted)
            else ok tt
        | err e ↦ err (Error.invalid_request Request.no_proposal)
        | panicked ↦ panicked
      ]

  unfoldable pub check_exec_msgs : ℕ → List Msg → env.runtime.Stores → Outcome (Unit {0})
  check_exec_msgs current_time [] s = ok tt
  check_exec_msgs current_time (group_exec id ∷ rest) s = elim (check_exec current_time id s) [
    | ok u ↦ check_exec_msgs current_time rest s
    | err e ↦ err e
    | panicked ↦ panicked
  ]
  check_exec_msgs current_time (create_validator a ∷ rest) s = check_exec_msgs current_time rest s
  check_exec_msgs current_time (other_msg n ∷ rest) s = check_exec_msgs current_time rest s

  -- `GroupProposalTimingDecorator.AnteHandle`
  unfoldable pub group_proposal_timing : AnteDecorator env.runtime.Context env.runtime.Stores
  group_proposal_timing ctx tx simulate next = do
    gets (check_exec_msgs (env.runtime.block_time ctx) tx)
    next ctx tx simulate

  unfoldable pub check_whitelist : List Msg → env.runtime.Stores → Outcome (Unit {0})
  check_whitelist [] s = ok tt
  check_whitelist (create_validator address ∷ rest) s =
      let others = check_whitelist rest s in
      if not (is_validator_whitelisted env.registry_keeper (env.registry s) address)
      then err Error.unauthorized
      else others
  check_whitelist (group_exec id ∷ rest) s = check_whitelist rest s
  check_whitelist (other_msg n ∷ rest) s = check_whitelist rest s

  -- `ValidatorWhitelistDecorator.AnteHandle`
  unfoldable pub validator_whitelist : AnteDecorator env.runtime.Context env.runtime.Stores
  validator_whitelist ctx tx simulate next = do gets (check_whitelist tx); next ctx tx simulate

  -- The decorators of the SDK that stand in the chain.
  pub record SdkDecorators : Type 0 where
    pub set_up_context : AnteDecorator env.runtime.Context env.runtime.Stores
    pub validate_basic : AnteDecorator env.runtime.Context env.runtime.Stores
    pub deduct_fee : AnteDecorator env.runtime.Context env.runtime.Stores
    pub increment_sequence : AnteDecorator env.runtime.Context env.runtime.Stores

  -- `NewAnteHandler`; the two flags say whether the bank keeper and the handler map of sign modes
  -- are given.
  unfoldable pub new_ante_handler :
      Bool → Bool → SdkDecorators → Outcome (AnteHandler env.runtime.Context env.runtime.Stores)
  new_ante_handler has_bank_keeper has_sign_mode_handler sdk =
      if not has_bank_keeper
      then err Error.missing_dependency
      else if not has_sign_mode_handler
      then err Error.missing_dependency
      else ok (
          env.runtime.chain_ante_decorators (
            sdk.set_up_context ∷ sdk.validate_basic ∷ group_proposal_timing ∷ validator_whitelist
            ∷ sdk.deduct_fee ∷ sdk.increment_sequence ∷ []))
