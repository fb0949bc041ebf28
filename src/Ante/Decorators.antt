-- ===== src/Ante/Decorators.antt =====
-- What the two decorators of the chain let through.
use veranatest.Registry.Handlers.{is_validator_whitelisted}
use veranatest.Sdk.Group.{Proposal, accepted, accepted_iff, is_accepted}
use veranatest.Prelude.{
  All, Bool-cases, Error, Outcome, Request, [], arith, err, inl, inr, ltb, ok, panicked, refl,
  subst, true, ℕ, ◌∷◌, ◌≡◌, ◌≤◌, ◌⊎◌,
}
use veranatest.Ante.{Env, check_exec, check_exec_msgs, check_whitelist}
use veranatest.Sdk.Tx.{Msg, Tx, create_validator, group_exec, other_msg}

module _ (env : Env) where
  -- The proposal that a `MsgExec` names is accepted, and its voting period has ended.
  abbrev pub ExecAllowed : ℕ → env.runtime.Stores → Msg → Type 0
  ExecAllowed now s (group_exec id) =
      (p : Proposal) × (env.group_keeper.proposal (env.groups s) id ≡ ok p)
      × (p.voting_period_end ≤ now)
      × (p.status ≡ accepted)
  ExecAllowed now s (create_validator a) = Unit
  ExecAllowed now s (other_msg n) = Unit

  -- The operator address of a `MsgCreateValidator` is that of a record of the registry.
  abbrev pub ValidatorAllowed : env.runtime.Stores → Msg → Type 0
  ValidatorAllowed s (group_exec id) = Unit
  ValidatorAllowed s (create_validator a) =
      is_validator_whitelisted env.registry_keeper (env.registry s) a ≡ true
  ValidatorAllowed s (other_msg n) = Unit

  -- The decorator stops the transaction.
  abbrev pub Stops : {A : Type 0} → Outcome A → Type 0
  Stops r = ((e : Error) × (r ≡ err e)) ⊎ (r ≡ panicked)

  read_once :
      (now id : ℕ) (s : env.runtime.Stores) (p : Proposal)
      → env.group_keeper.proposal (env.groups s) id ≡ ok p
      → ExecAllowed now s (group_exec id)
      → (p.voting_period_end ≤ now) × (p.status ≡ accepted)
  read_once now id s p e (q, f, h, a) =
      let same : q ≡ p = cc in
      subst (λ (x : Proposal). (x.voting_period_end ≤ now) × (x.status ≡ accepted)) same (h, a)

  check_exec_cases :
      (now id : ℕ) (s : env.runtime.Stores)
      → ((check_exec env now id s ≡ ok tt) × ExecAllowed now s (group_exec id))
        ⊎ (Stops (check_exec env now id s) × ¬ (ExecAllowed now s (group_exec id)))
  unfolding check_exec
  check_exec_cases now id s = go (env.group_keeper.proposal (env.groups s) id) refl
    where
      go :
          (r : Outcome Proposal)
          → env.group_keeper.proposal (env.groups s) id ≡ r
          → ((check_exec env now id s ≡ ok tt) × ExecAllowed now s (group_exec id))
            ⊎ (Stops (check_exec env now id s) × ¬ (ExecAllowed now s (group_exec id)))
      go (ok p) e = elim (Bool-cases (ltb now p.voting_period_end)) [
        | inl early ↦ inr (
          inl (Error.invalid_request Request.too_early, rw (e, check_exec) (rw early)),
          λ h. ground (arith, (read_once now id s p e h).0),
        )
        | inr late ↦ elim (Bool-cases (is_accepted p.status)) [
          | inl yes_accepted ↦ inl (
            rw (e, check_exec) (rw (late, yes_accepted)),
            (p, e, ground arith, (accepted_iff p.status).0 yes_accepted),
          )
          | inr pending ↦ inr (
            inl (
              Error.invalid_request Request.not_accepted,
              rw (e, check_exec) (rw (late, pending)),
            ),
            λ h. cc ((accepted_iff p.status).1 (read_once now id s p e h).1),
          )
        ]
      ]
      go (err x) e =
          inr (inl (Error.invalid_request Request.no_proposal, rw (e, check_exec)), λ h. cc (h.1))
      go panicked e = inr (inr (rw (e, check_exec)), λ h. cc (h.1))

  pub check_exec_msgs_cases :
      (now : ℕ) (tx : Tx) (s : env.runtime.Stores)
      → ((check_exec_msgs env now tx s ≡ ok tt) × All (ExecAllowed now s) tx)
        ⊎ (Stops (check_exec_msgs env now tx s) × ¬ (All (ExecAllowed now s) tx))
  unfolding check_exec_msgs
  check_exec_msgs_cases now [] s = inl (refl, tt)
  check_exec_msgs_cases now (group_exec id ∷ rest) s = elim (check_exec_cases now id s) [
    | inl (e, h) ↦ elim (check_exec_msgs_cases now rest s) [
      | inl (f, g) ↦ inl (rw (e, check_exec_msgs) f, (h, g))
      | inr (f, n) ↦ inr (rw (e, check_exec_msgs) f, λ a. n a.1)
    ]
    | inr (inl (x, e), n) ↦ inr (inl (x, rw (e, check_exec_msgs)), λ a. n a.0)
    | inr (inr e, n) ↦ inr (inr (rw (e, check_exec_msgs)), λ a. n a.0)
  ]
  check_exec_msgs_cases now (create_validator a ∷ rest) s =
      elim (check_exec_msgs_cases now rest s) [
        | inl (f, g) ↦ inl (f, (tt, g))
        | inr (f, n) ↦ inr (f, λ h. n h.1)
      ]
  check_exec_msgs_cases now (other_msg m ∷ rest) s = elim (check_exec_msgs_cases now rest s) [
    | inl (f, g) ↦ inl (f, (tt, g))
    | inr (f, n) ↦ inr (f, λ h. n h.1)
  ]

  pub check_whitelist_cases :
      (tx : Tx) (s : env.runtime.Stores)
      → ((check_whitelist env tx s ≡ ok tt) × All (ValidatorAllowed s) tx)
        ⊎ ((check_whitelist env tx s ≡ err Error.unauthorized) × ¬ (All (ValidatorAllowed s) tx))
  unfolding check_whitelist
  check_whitelist_cases [] s = inl (refl, tt)
  check_whitelist_cases (create_validator a ∷ rest) s =
      elim (Bool-cases (is_validator_whitelisted env.registry_keeper (env.registry s) a)) [
        | inl e ↦ elim (check_whitelist_cases rest s) [
          | inl (f, g) ↦ inl (rw e f, (e, g))
          | inr (f, n) ↦ inr (rw e f, λ h. n h.1)
        ]
        | inr e ↦ inr (rw e, λ h. cc (h.0))
      ]
  check_whitelist_cases (group_exec id ∷ rest) s = elim (check_whitelist_cases rest s) [
    | inl (f, g) ↦ inl (f, (tt, g))
    | inr (f, n) ↦ inr (f, λ h. n h.1)
  ]
  check_whitelist_cases (other_msg m ∷ rest) s = elim (check_whitelist_cases rest s) [
    | inl (f, g) ↦ inl (f, (tt, g))
    | inr (f, n) ↦ inr (f, λ h. n h.1)
  ]
