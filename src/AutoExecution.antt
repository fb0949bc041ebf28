-- ===== src/AutoExecution.antt =====
-- The end of each block: x/validatorregistry/module/module.go runs the group proposals that are
-- accepted when their voting period has ended.
pub mod Steps
pub mod Selection
mod Tests
use veranatest.Prelude.{
  Bytes, Error, Exec, List, Outcome, Request, [], err, gets, guard, if◌then◌else◌, ltb, not, ok,
  panicked, pure, ℕ, ◌>>=◌, ◌>>◌, ◌∷◌,
}
use veranatest.Sdk.Group.{GroupKeeper, Proposal, is_accepted, is_failure, is_success}

-- An error is logged, and the loop goes on.
unfoldable pub ignore_error : {S : Type 0} → Outcome (Unit {0}) × S → Outcome (Unit {0}) × S
ignore_error (ok u, s) = (ok u, s)
ignore_error (err e, s) = (ok tt, s)
ignore_error (panicked, s) = (panicked, s)

module _ (g : GroupKeeper) (current_time : ℕ) where
  unfoldable pub try_execute_proposal : ℕ → Exec g.Store (Unit {0})
  try_execute_proposal proposal_id = do
    proposal ← gets (λ s. g.proposal s proposal_id)
    guard (is_accepted proposal.status) (Error.invalid_request Request.not_accepted)
    guard (not (ltb current_time proposal.voting_period_end))
        (Error.invalid_request Request.too_early)
    g.exec proposal_id proposal.group_policy_address

  -- The body of the innermost loop.
  unfoldable pub check_proposal : Proposal → Exec g.Store (Unit {0})
  check_proposal proposal s =
      if ltb current_time proposal.voting_period_end
      then (ok tt, s)
      else if is_success proposal.executor_result
      then (ok tt, s)
      else if is_failure proposal.executor_result
      then (ok tt, s)
      else if is_accepted proposal.status
      then ignore_error (try_execute_proposal proposal.id s)
      else (ok tt, s)

  unfoldable pub check_proposals : List Proposal → Exec g.Store (Unit {0})
  check_proposals [] = pure tt
  check_proposals (proposal ∷ rest) = check_proposal proposal >> check_proposals rest

  unfoldable pub check_policy : Bytes → Exec g.Store (Unit {0})
  check_policy address s = elim (g.proposals_by_policy s address) [
    | ok proposals ↦ check_proposals proposals s
    | err e ↦ (ok tt, s)
    | panicked ↦ (panicked, s)
  ]

  unfoldable pub check_policies : List Bytes → Exec g.Store (Unit {0})
  check_policies [] = pure tt
  check_policies (address ∷ rest) = check_policy address >> check_policies rest

  unfoldable pub check_group : ℕ → Exec g.Store (Unit {0})
  check_group id s = elim (g.policies_by_group s id) [
    | ok policies ↦ check_policies policies s
    | err e ↦ (ok tt, s)
    | panicked ↦ (panicked, s)
  ]

  unfoldable pub check_groups : List ℕ → Exec g.Store (Unit {0})
  check_groups [] = pure tt
  check_groups (id ∷ rest) = check_group id >> check_groups rest

  unfoldable pub execute_pending_group_proposals : Exec g.Store (Unit {0})
  execute_pending_group_proposals = do ids ← gets g.groups; check_groups ids

  unfoldable pub end_block : Exec g.Store (Unit {0})
  end_block s = ignore_error (execute_pending_group_proposals s)
