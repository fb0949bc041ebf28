-- ===== src/AutoExecution/Steps.antt =====
-- The end of a block as a sequence of calls of `Exec`, and that it returns no error.
use veranatest.Prelude.{
  Bool, Bool-cases, Bytes, Exec, List, Outcome, [], arith, continue, err, false, gets, guard,
  if◌then◌else◌, inl, inr, ltb, ok, panicked, pure, refl, subst, sym, true, ℕ, ◌>>=◌, ◌>>◌, ◌∷◌,
  ◌≡◌, ◌≤◌, ◌⊎◌,
}
use veranatest.AutoExecution.{
  check_group, check_groups, check_policies, check_policy, check_proposal, check_proposals,
  end_block, execute_pending_group_proposals, ignore_error, try_execute_proposal,
}
use veranatest.Sdk.Group.{GroupKeeper, Proposal, is_accepted, is_failure, is_success}

module _ (g : GroupKeeper) (now : ℕ) where
  -- The group module's store changes only by calls of `Exec`, each on a proposal that is accepted
  -- and whose voting period has ended in the store of that moment, by its own group policy.
  pub data Executions : g.Store → g.Store → Type 0 where
    none_left : {s : g.Store} → Executions s s
    exec_one :
        {s t : g.Store} (id : ℕ) (p : Proposal)
        → g.proposal s id ≡ ok p
        → is_accepted p.status ≡ true
        → p.voting_period_end ≤ now
        → Executions (g.exec id p.group_policy_address s).1 t
        → Executions s t

  append-Executions : {s t u : g.Store} → Executions s t → Executions t u → Executions s u
  append-Executions none_left r = r
  append-Executions (exec_one id p e a h rest) r = exec_one id p e a h (append-Executions rest r)

  -- Such a call.
  record Runs (m : Exec g.Store (Unit {0})) : Type 0 where
    from : (s : g.Store) → Executions s (m s).1

  Runs-pure : Runs (pure tt)
  unfolding pure
  Runs-pure = record { from = λ s. none_left }

  Runs-bind : (m k : Exec g.Store (Unit {0})) → Runs m → Runs k → Runs (m >> k)
  unfolding ◌>>=◌
  Runs-bind m k hm hk = record { from = λ s. go s (m s) refl }
    where
      go : (s : g.Store) (r : Outcome (Unit {0}) × g.Store) → m s ≡ r → Executions s ((m >> k) s).1
      go s (ok u, t) e =
          rw (e, continue)
            (append-Executions
              (subst (λ (r : Outcome (Unit {0}) × g.Store). Executions s r.1) e (hm.from s))
              (hk.from t))
      go s (err x, t) e =
          rw (e, continue)
            (subst (λ (r : Outcome (Unit {0}) × g.Store). Executions s r.1) e (hm.from s))
      go s (panicked, t) e =
          rw (e, continue)
            (subst (λ (r : Outcome (Unit {0}) × g.Store). Executions s r.1) e (hm.from s))

  ignore_state : (r : Outcome (Unit {0}) × g.Store) → (ignore_error r).1 ≡ r.1
  unfolding ignore_error
  ignore_state (ok u, s) = refl
  ignore_state (err e, s) = refl
  ignore_state (panicked, s) = refl

  try_execute-Runs : (id : ℕ) → Runs (try_execute_proposal g now id)
  unfolding try_execute_proposal ◌>>=◌ gets guard
  try_execute-Runs id = record { from = λ s. go s (g.proposal s id) refl }
    where
      go :
          (s : g.Store) (r : Outcome Proposal)
          → g.proposal s id ≡ r
          → Executions s (try_execute_proposal g now id s).1
      go s (ok p) e = elim (Bool-cases (is_accepted p.status)) [
        | inl a ↦ elim (Bool-cases (ltb now p.voting_period_end)) [
          | inl early ↦ rw (e, continue, a, early) none_left
          | inr late ↦ rw (e, continue, a, late) (exec_one id p e a (ground arith) none_left)
        ]
        | inr n ↦ rw (e, continue, n) none_left
      ]
      go s (err x) e = rw (e, continue) none_left
      go s panicked e = rw (e, continue) none_left

  either :
      (b : Bool) {s : g.Store} (x y : Outcome (Unit {0}) × g.Store)
      → Executions s x.1
      → Executions s y.1
      → Executions s (if b then x else y).1
  either true x y hx hy = hx
  either false x y hx hy = hy

  ignored :
      {s : g.Store} (r : Outcome (Unit {0}) × g.Store)
      → Executions s r.1
      → Executions s (ignore_error r).1
  ignored {s} r h = subst (λ t. Executions s t) (sym (ignore_state r)) h

  check_proposal-Runs : (p : Proposal) → Runs (check_proposal g now p)
  unfolding check_proposal
  check_proposal-Runs p = record {
    from = λ s. either (ltb now p.voting_period_end) _ _ none_left (
        either (is_success p.executor_result) _ _ none_left (
          either (is_failure p.executor_result) _ _ none_left (
            either (is_accepted p.status) _ _ (ignored _ ((try_execute-Runs p.id).from s))
              none_left)));
  }

  check_proposals-Runs : (ps : List Proposal) → Runs (check_proposals g now ps)
  unfolding check_proposals
  check_proposals-Runs [] = Runs-pure
  check_proposals-Runs (p ∷ ps) = Runs-bind _ _ (check_proposal-Runs p) (check_proposals-Runs ps)

  check_policy-Runs : (address : Bytes) → Runs (check_policy g now address)
  unfolding check_policy
  check_policy-Runs address = record { from = λ s. go s (g.proposals_by_policy s address) refl }
    where
      go :
          (s : g.Store) (r : Outcome (List Proposal))
          → g.proposals_by_policy s address ≡ r
          → Executions s (check_policy g now address s).1
      go s (ok ps) e = rw (e, check_policy) ((check_proposals-Runs ps).from s)
      go s (err x) e = rw (e, check_policy) none_left
      go s panicked e = rw (e, check_policy) none_left

  check_policies-Runs : (l : List Bytes) → Runs (check_policies g now l)
  unfolding check_policies
  check_policies-Runs [] = Runs-pure
  check_policies-Runs (a ∷ l) = Runs-bind _ _ (check_policy-Runs a) (check_policies-Runs l)

  check_group-Runs : (id : ℕ) → Runs (check_group g now id)
  unfolding check_group
  check_group-Runs id = record { from = λ s. go s (g.policies_by_group s id) refl }
    where
      go :
          (s : g.Store) (r : Outcome (List Bytes))
          → g.policies_by_group s id ≡ r
          → Executions s (check_group g now id s).1
      go s (ok l) e = rw (e, check_group) ((check_policies-Runs l).from s)
      go s (err x) e = rw (e, check_group) none_left
      go s panicked e = rw (e, check_group) none_left

  check_groups-Runs : (ids : List ℕ) → Runs (check_groups g now ids)
  unfolding check_groups
  check_groups-Runs [] = Runs-pure
  check_groups-Runs (id ∷ ids) = Runs-bind _ _ (check_group-Runs id) (check_groups-Runs ids)

  execute_pending-Runs : Runs (execute_pending_group_proposals g now)
  unfolding execute_pending_group_proposals gets ◌>>=◌
  execute_pending-Runs = record { from = λ s. go s (g.groups s) refl }
    where
      go :
          (s : g.Store) (r : Outcome (List ℕ))
          → g.groups s ≡ r
          → Executions s (execute_pending_group_proposals g now s).1
      go s (ok ids) e = rw (e, continue) ((check_groups-Runs ids).from s)
      go s (err x) e = rw (e, continue) none_left
      go s panicked e = rw (e, continue) none_left

  never_err :
      (r : Outcome (Unit {0}) × g.Store)
      → ((ignore_error r).0 ≡ ok tt) ⊎ ((ignore_error r).0 ≡ panicked)
  unfolding ignore_error
  never_err (ok u, s) = inl refl
  never_err (err e, s) = inl refl
  never_err (panicked, s) = inr refl

  -- The end of a block changes the group module's store only by executing, one at a time, proposals
  -- that are accepted and past their voting period at that moment, and it never returns an error.
  pub end_block_executes :
      (s : g.Store)
      → Executions s (end_block g now s).1
        × (((end_block g now s).0 ≡ ok tt) ⊎ ((end_block g now s).0 ≡ panicked))
  unfolding end_block
  end_block_executes s =
      (ignored _ (execute_pending-Runs.from s), never_err (execute_pending_group_proposals g now s))
