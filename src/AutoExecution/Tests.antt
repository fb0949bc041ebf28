-- ===== src/AutoExecution/Tests.antt =====
-- A run of the end of a block over three proposals, and the theorems there.
use veranatest.AutoExecution.Selection.{Pending, check_proposals-try_each, try_each}
use veranatest.AutoExecution.Steps.{Executions, end_block_executes}
use veranatest.Prelude.{
  List, [], bytes_eq, gets, guard, ok, panicked, pure, refl, ℕ, ◌>>=◌, ◌∷◌, ◌≡◌, ◌⊎◌,
}
use veranatest.Sdk.Group.{Proposal, accepted, other_status, success}
use veranatest.Sdk.Instances.Groups.{group_list, proposal, proposal_at, run_proposal}
use veranatest.AutoExecution.{
  check_group, check_groups, check_policies, check_policy, check_proposal, check_proposals,
  end_block, execute_pending_group_proposals, ignore_error, try_execute_proposal,
}

abbrev proposals : List Proposal
proposals = proposal 1 accepted 5 ∷ proposal 2 (other_status 1) 5 ∷ proposal 3 accepted 50 ∷ []

-- Only the first is accepted and past its voting period at time 9.
run_end_block : end_block group_list 9 proposals ≡ (
  ok tt,
  record (proposal 1 accepted 5) { executor_result = success }
      ∷ proposal 2 (other_status 1) 5
      ∷ proposal 3 accepted 50
      ∷ [],
)
unfolding end_block execute_pending_group_proposals check_groups check_group check_policies
    check_policy check_proposals check_proposal try_execute_proposal ignore_error ◌>>=◌ gets guard
    pure proposal_at run_proposal bytes_eq
run_end_block = refl

end_block_executes_example :
    Executions group_list 9 proposals (end_block group_list 9 proposals).1
    × (((end_block group_list 9 proposals).0 ≡ ok tt)
        ⊎ ((end_block group_list 9 proposals).0 ≡ panicked))
end_block_executes_example = end_block_executes group_list 9 proposals

check_proposals-try_each_example :
    (ids : List ℕ) × Pending 9 proposals ids
    × (check_proposals group_list 9 proposals ≡ try_each group_list 9 ids)
check_proposals-try_each_example = check_proposals-try_each group_list 9 proposals
