-- ===== src/Sdk/Instances/Groups.antt =====
-- A concrete group keeper: one group with one policy, and a list of proposals.
use veranatest.Prelude.{
  Bytes, Error, Exec, List, Outcome, [], ascii, bytes_eq, err, if◌then◌else◌, ok, ℕ, ◌==◌, ◌∷◌,
}
use veranatest.Sdk.Group.{GroupKeeper, Proposal, ProposalStatus, other_result, success}

unfoldable pub proposal_at : List Proposal → ℕ → Outcome Proposal
proposal_at [] id = err (Error.foreign 3)
proposal_at (p ∷ rest) id = if p.id == id then ok p else proposal_at rest id

unfoldable pub mark_run : ℕ → List Proposal → List Proposal
mark_run id [] = []
mark_run id (p ∷ rest) =
    (if p.id == id then record p { executor_result = success } else p) ∷ mark_run id rest

-- Executing a proposal by another account than its policy's fails.
unfoldable pub run_proposal : ℕ → Bytes → Exec (List Proposal) (Unit {0})
unfolding mark_run
run_proposal id executor s =
    if bytes_eq executor (ascii "policy")
    then (ok tt, mark_run id s)
    else (err (Error.foreign 4), s)

abbrev pub group_list : GroupKeeper
group_list = record {
  Store = List Proposal;
  groups = λ s. ok (1 ∷ []);
  policies_by_group = λ s id. ok (ascii "policy" ∷ []);
  proposals_by_policy = λ s address. ok s;
  proposal = proposal_at;
  exec = run_proposal;
}

abbrev pub proposal : ℕ → ProposalStatus → ℕ → Proposal
proposal id status end = record {
  id = id;
  group_policy_address = ascii "policy";
  status = status;
  voting_period_end = end;
  executor_result = other_result 0;
}
