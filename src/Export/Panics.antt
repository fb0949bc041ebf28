-- ===== src/Export/Panics.antt =====
-- The preparation of app/export.go for a start at height zero ends or panics.
use veranatest.Export.{
  check_allowed, close_and_finish, finish_reset, prep_for_zero_height_genesis,
  reinitialize_delegations, reset_distribution, reset_staking, reset_validator, reset_validators,
  withdraw_rewards,
}
use veranatest.Export.Rules.{
  NeverErrs, NeverErrs-bind, NeverErrs-discard, NeverErrs-must, NeverErrs-procedure, NeverErrs-pure,
  NeverErrs-reads,
}
use veranatest.Prelude.{Bytes, Error, List, Outcome, [], err, ok, panicked, refl, ◌∷◌, ◌≡◌, ◌≢◌}
use veranatest.Prelude.Int.{pos}
use veranatest.Sdk.Staking.{Delegation, Keepers}

module _ (k : Keepers) where
  check_allowed-NeverErrs : (l : List Bytes) → NeverErrs (check_allowed k l)
  unfolding check_allowed
  check_allowed-NeverErrs [] = NeverErrs-pure tt
  check_allowed-NeverErrs (a ∷ l) =
      NeverErrs-bind _ _ (NeverErrs-must _) λ b. check_allowed-NeverErrs l

  withdraw_rewards-NeverErrs :
      (ctx : k.Context) (l : List Delegation) → NeverErrs (withdraw_rewards k ctx l)
  unfolding withdraw_rewards
  withdraw_rewards-NeverErrs ctx [] = NeverErrs-pure tt
  withdraw_rewards-NeverErrs ctx (d ∷ l) = NeverErrs-bind _ _ (NeverErrs-must _) λ v.
      NeverErrs-bind _ _ (NeverErrs-must _)
        λ a. NeverErrs-bind _ _ (NeverErrs-discard _) λ u. withdraw_rewards-NeverErrs ctx l

  reinitialize_delegations-NeverErrs :
      (ctx : k.Context) (l : List Delegation) → NeverErrs (reinitialize_delegations k ctx l)
  unfolding reinitialize_delegations
  reinitialize_delegations-NeverErrs ctx [] = NeverErrs-pure tt
  reinitialize_delegations-NeverErrs ctx (d ∷ l) = NeverErrs-bind _ _ (NeverErrs-must _) λ v.
      NeverErrs-bind _ _ (NeverErrs-must _) λ a.
        NeverErrs-bind _ _ (NeverErrs-must _)
          λ u. NeverErrs-bind _ _ (NeverErrs-must _) λ w. reinitialize_delegations-NeverErrs ctx l

  reset_distribution-NeverErrs : (ctx : k.Context) → NeverErrs (reset_distribution k ctx)
  unfolding reset_distribution
  reset_distribution-NeverErrs ctx = NeverErrs-bind _ _ (NeverErrs-must _) λ u.
      NeverErrs-bind _ _ (NeverErrs-must _) λ dels.
        NeverErrs-bind _ _ (withdraw_rewards-NeverErrs ctx dels) λ v.
          NeverErrs-bind _ _ (NeverErrs-procedure _) λ x.
            NeverErrs-bind _ _ (NeverErrs-procedure _) λ y.
              NeverErrs-bind _ _ (NeverErrs-must _)
                λ z. reinitialize_delegations-NeverErrs (k.with_block_height ctx (pos 0)) dels

  reset_validators-NeverErrs :
      (allowed keys : List Bytes) → NeverErrs (reset_validators k allowed keys)
  unfolding reset_validators reset_validator
  reset_validators-NeverErrs allowed [] = NeverErrs-pure tt
  reset_validators-NeverErrs allowed (a ∷ l) =
      NeverErrs-bind _ _
        (NeverErrs-bind _ _ (NeverErrs-must _)
          λ v. NeverErrs-bind _ _ (NeverErrs-must _) λ n. NeverErrs-must _)
        λ u. reset_validators-NeverErrs allowed l

  finish_reset-NeverErrs : (ctx : k.Context) → NeverErrs (finish_reset k ctx)
  unfolding finish_reset
  finish_reset-NeverErrs ctx = NeverErrs-bind _ _ (NeverErrs-must _) λ u. NeverErrs-must _

  close_and_finish-NeverErrs : (ctx : k.Context) → NeverErrs (close_and_finish k ctx)
  unfolding close_and_finish
  close_and_finish-NeverErrs ctx = record { at = λ s t e. go s t e (k.close_iterator s) refl }
    where
      go :
          (s t : k.Stores) (e : Error) (r : Outcome (Unit {0}))
          → k.close_iterator s ≡ r
          → close_and_finish k ctx s ≢ (err e, t)
      go s t e (ok u) q = λ h. (finish_reset-NeverErrs ctx).at s t e (rw (q, close_and_finish) at h)
      go s t e (err x) q = λ h. cc
      go s t e panicked q = λ h. cc

  reset_staking-NeverErrs :
      (ctx : k.Context) (allowed : List Bytes) → NeverErrs (reset_staking k ctx allowed)
  unfolding reset_staking
  reset_staking-NeverErrs ctx allowed = NeverErrs-bind _ _ (NeverErrs-must _) λ u.
      NeverErrs-bind _ _ (NeverErrs-must _) λ v. NeverErrs-bind _ _ (NeverErrs-reads _) λ keys.
        NeverErrs-bind _ _ (reset_validators-NeverErrs allowed keys)
          λ w. close_and_finish-NeverErrs ctx

  -- The preparation for a start at height zero returns no error: it ends, or panics.
  pub prep-NeverErrs :
      (ctx : k.Context) (allowed : List Bytes)
      → NeverErrs (prep_for_zero_height_genesis k ctx allowed)
  unfolding prep_for_zero_height_genesis
  prep-NeverErrs ctx allowed = NeverErrs-bind _ _ (check_allowed-NeverErrs allowed) λ u.
      NeverErrs-bind _ _ (reset_distribution-NeverErrs ctx) λ v. reset_staking-NeverErrs _ allowed
