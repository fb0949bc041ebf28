-- ===== src/Sdk/Group.antt =====
-- cosmos-sdk x/group: the keeper that the chain queries and calls. Nothing is assumed of it.
use veranatest.Prelude.{Bool, Bytes, Exec, List, Outcome, false, refl, true, ℕ, ◌↔◌, ◌≡◌}

-- The status and the executor's result, with the values that the chain's code names.
pub data ProposalStatus : Type 0 where
  accepted : ProposalStatus
  other_status : ℕ → ProposalStatus

pub data ExecutorResult : Type 0 where
  success failure : ExecutorResult
  other_result : ℕ → ExecutorResult

abbrev pub is_accepted : ProposalStatus → Bool
is_accepted accepted = true
is_accepted (other_status n) = false

abbrev pub is_success : ExecutorResult → Bool
is_success success = true
is_success _ = false

abbrev pub is_failure : ExecutorResult → Bool
is_failure failure = true
is_failure _ = false

pub success_iff : (r : ExecutorResult) → (is_success r ≡ true) ↔ (r ≡ success)
success_iff success = ((λ h. refl), (λ h. refl))
success_iff failure = ((λ h. cc), (λ h. cc))
success_iff (other_result n) = ((λ h. cc), (λ h. cc))

pub failure_iff : (r : ExecutorResult) → (is_failure r ≡ true) ↔ (r ≡ failure)
failure_iff success = ((λ h. cc), (λ h. cc))
failure_iff failure = ((λ h. refl), (λ h. refl))
failure_iff (other_result n) = ((λ h. cc), (λ h. cc))

pub accepted_iff : (r : ProposalStatus) → (is_accepted r ≡ true) ↔ (r ≡ accepted)
accepted_iff accepted = ((λ h. refl), (λ h. refl))
accepted_iff (other_status n) = ((λ h. cc), (λ h. cc))

-- The fields of `group.Proposal` that the chain reads; a time is an instant as a number.
pub record Proposal : Type 0 where
  pub id : ℕ
  pub group_policy_address : Bytes
  pub status : ProposalStatus
  pub voting_period_end : ℕ
  pub executor_result : ExecutorResult

-- `groupkeeper.Keeper`: queries read the store, `exec` may change it also when it fails.
pub record GroupKeeper : Type 1 where
  pub Store : Type 0
  -- the ids of `Groups`, the addresses of `GroupPoliciesByGroup`
  pub groups : Store → Outcome (List ℕ)
  pub policies_by_group : Store → ℕ → Outcome (List Bytes)
  pub proposals_by_policy : Store → Bytes → Outcome (List Proposal)
  pub proposal : Store → ℕ → Outcome Proposal
  -- `Exec` with the proposal's id and the executor
  pub exec : ℕ → Bytes → Exec Store (Unit {0})
