-- ===== src/AutoExecution/Selection.antt =====
-- Which proposals the loops of the block's end try, and that one failure does not stop the others.
use veranatest.Prelude.{
  Bool-cases, Exec, List, [], ap, ap₂, arith, false_of, fun_ext, inl, inr, ltb, pure, refl, ℕ,
  ◌>>=◌, ◌>>◌, ◌∙◌, ◌∷◌, ◌≡◌, ◌≢◌, ◌≤◌, ◌⊎◌,
}
use veranatest.AutoExecution.{check_proposal, check_proposals, ignore_error, try_execute_proposal}
use veranatest.Sdk.Group.{
  GroupKeeper, Proposal, accepted, accepted_iff, failure, failure_iff, is_accepted, is_failure,
  is_success, success, success_iff,
}

-- A listed proposal to execute: its period has ended, it has not run, and it is accepted.
pub record IsPending (now : ℕ) (p : Proposal) : Type 0 where
  pub ended : p.voting_period_end ≤ now
  pub not_succeeded : p.executor_result ≢ success
  pub not_failed : p.executor_result ≢ failure
  pub passed : p.status ≡ accepted

-- The ids of the pending proposals of a list, in its order, as a relation.
pub data Pending (now : ℕ) : List Proposal → List ℕ → Type 0 where
  none_listed : Pending now [] []
  take_id :
      {ps : List Proposal} {ids : List ℕ} (p : Proposal)
      → IsPending now p
      → Pending now ps ids
      → Pending now (p ∷ ps) (p.id ∷ ids)
  pass_over :
      {ps : List Proposal} {ids : List ℕ} (p : Proposal)
      → ¬ (IsPending now p)
      → Pending now ps ids
      → Pending now (p ∷ ps) ids

-- Each id is tried in turn; an error of one is dropped, and a panic ends the run.
pub try_each : (g : GroupKeeper) → ℕ → List ℕ → Exec g.Store (Unit {0})
unfolding ignore_error
try_each g now [] = pure tt
try_each g now (id ∷ ids) =
    (λ s. ignore_error (try_execute_proposal g now id s)) >> try_each g now ids

module _ (g : GroupKeeper) (now : ℕ) where
  attempt : Proposal → Exec g.Store (Unit {0})
  attempt p s = ignore_error (try_execute_proposal g now p.id s)

  tries_pending : (p : Proposal) → IsPending now p → check_proposal g now p ≡ attempt p
  unfolding check_proposal attempt
  tries_pending p h = fun_ext λ s. rw (
    false_of (ltb now p.voting_period_end) (λ e. ground (arith, h.ended)),
    false_of (is_success p.executor_result) (λ e. h.not_succeeded ((success_iff _).0 e)),
    false_of (is_failure p.executor_result) (λ e. h.not_failed ((failure_iff _).0 e)),
    (accepted_iff p.status).1 h.passed,
  )

  -- One of the tests of the loop passes a proposal over, or it is pending.
  pub decide-IsPending :
      (p : Proposal) → IsPending now p ⊎ (¬ (IsPending now p) × (check_proposal g now p ≡ pure tt))
  unfolding check_proposal pure
  decide-IsPending p = elim (Bool-cases (ltb now p.voting_period_end)) [
    | inl early ↦ inr ((λ h. ground (arith, h.ended)), fun_ext λ s. rw early)
    | inr late ↦ elim (Bool-cases (is_success p.executor_result)) [
      | inl done ↦
          inr ((λ h. h.not_succeeded ((success_iff _).0 done)), fun_ext λ s. rw (late, done))
      | inr open_1 ↦ elim (Bool-cases (is_failure p.executor_result)) [
        | inl failed ↦
            inr (
              (λ h. h.not_failed ((failure_iff _).0 failed)),
              fun_ext λ s. rw (late, open_1, failed),
            )
        | inr open_2 ↦ elim (Bool-cases (is_accepted p.status)) [
          | inl passed ↦ inl (record {
            ended = ground arith;
            not_succeeded = λ e. cc ((success_iff p.executor_result).1 e);
            not_failed = λ e. cc ((failure_iff p.executor_result).1 e);
            passed = (accepted_iff p.status).0 passed;
          })
          | inr other ↦ inr (
            (λ h. cc ((accepted_iff p.status).1 h.passed)),
            fun_ext λ s. rw (late, open_1, open_2, other),
          )
        ]
      ]
    ]
  ]

  pure_bind : (m : Exec g.Store (Unit {0})) → (pure tt >> m) ≡ m
  unfolding ◌>>=◌ pure
  pure_bind m = refl

  -- The loop over the proposals of a policy tries exactly the pending ones, in their order, and an
  -- error of one does not keep it from the next.
  pub check_proposals-try_each :
      (ps : List Proposal)
      → (ids : List ℕ) × Pending now ps ids × (check_proposals g now ps ≡ try_each g now ids)
  unfolding check_proposals try_each attempt
  check_proposals-try_each [] = ([], none_listed, refl)
  check_proposals-try_each (p ∷ ps) =
      let (ids, r, same) = check_proposals-try_each ps in
      elim (decide-IsPending p) [
        | inl h ↦ (p.id ∷ ids, take_id p h r, ap₂ (λ m n. m >> n) (tries_pending p h) same)
        | inr (n, skip) ↦ (
          ids,
          pass_over p n r,
          ap (λ m. m >> check_proposals g now ps) skip ∙ pure_bind _ ∙ same,
        )
      ]
