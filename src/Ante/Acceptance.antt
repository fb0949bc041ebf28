-- ===== src/Ante/Acceptance.antt =====
-- What each decorator does to a transaction, and what an accepted transaction has passed.
use veranatest.Registry.Handlers.{is_validator_whitelisted}
use veranatest.Ante.Decorators.{
  ExecAllowed, Stops, ValidatorAllowed, check_exec_msgs_cases, check_whitelist_cases,
}
use veranatest.Prelude.{
  All, All-map, Bool, Error, Exec, List, Outcome, ap, continue, err, false, gets, inl, inr, ok,
  ok_injective, panicked, refl, subst, sym, true, ℕ, ◌>>=◌, ◌∙◌, ◌∷◌, ◌≡◌, ◌≤◌, ◌⊎◌,
}
use veranatest.Ante.{
  Env, SdkDecorators, check_exec_msgs, group_proposal_timing, new_ante_handler, validator_whitelist,
}
use veranatest.Sdk.Tx.{AnteDecorator, AnteHandler, Msg, Tx, create_validator, group_exec, other_msg}

module _ (env : Env) where
  stop_stays :
      {A B : Type 0} (r : Outcome A) (k : A → Exec env.runtime.Stores B) (s : env.runtime.Stores)
      → Stops env r
      → Stops env (continue r k s).0 × ((continue r k s).1 ≡ s)
  stop_stays (ok a) k s (inl (e, h)) = cc
  stop_stays (ok a) k s (inr h) = cc
  stop_stays (err e) k s h = (inl (e, refl), refl)
  stop_stays panicked k s h = (inr refl, refl)

  -- The decorator on group proposals hands the transaction on when every `MsgExec` in it names an
  -- accepted proposal whose voting period has ended, and otherwise stops it and changes nothing.
  pub group_proposal_timing_lem :
      (ctx : env.runtime.Context) (tx : Tx) (simulate : Bool)
      (next : AnteHandler env.runtime.Context env.runtime.Stores) (s : env.runtime.Stores)
      → (All (ExecAllowed env (env.runtime.block_time ctx) s) tx
          × (group_proposal_timing env ctx tx simulate next s ≡ next ctx tx simulate s))
        ⊎ ((¬ (All (ExecAllowed env (env.runtime.block_time ctx) s) tx))
            × Stops env (group_proposal_timing env ctx tx simulate next s).0
            × ((group_proposal_timing env ctx tx simulate next s).1 ≡ s))
  unfolding group_proposal_timing ◌>>=◌ gets
  group_proposal_timing_lem ctx tx simulate next s =
      elim (check_exec_msgs_cases env (env.runtime.block_time ctx) tx s) [
        | inl (e, h) ↦ inl (h, rw (e, continue))
        | inr (e, n) ↦
            let (stopped, same) =
              stop_stays (check_exec_msgs env (env.runtime.block_time ctx) tx s)
                (λ u. next ctx tx simulate) s e in
            inr (n, stopped, same)
      ]

  -- The decorator on the whitelist hands the transaction on when every validator that it creates is
  -- whitelisted, and otherwise refuses it as unauthorized and changes nothing.
  pub validator_whitelist_lem :
      (ctx : env.runtime.Context) (tx : Tx) (simulate : Bool)
      (next : AnteHandler env.runtime.Context env.runtime.Stores) (s : env.runtime.Stores)
      → (All (ValidatorAllowed env s) tx
          × (validator_whitelist env ctx tx simulate next s ≡ next ctx tx simulate s))
        ⊎ ((¬ (All (ValidatorAllowed env s) tx))
            × (validator_whitelist env ctx tx simulate next s ≡ (err Error.unauthorized, s)))
  unfolding validator_whitelist ◌>>=◌ gets
  validator_whitelist_lem ctx tx simulate next s = elim (check_whitelist_cases env tx s) [
    | inl (e, h) ↦ inl (h, rw (e, continue))
    | inr (e, n) ↦ inr (n, rw (e, continue))
  ]

  -- What is relied on of a decorator of the SDK that stands before the two: when the transaction is
  -- accepted, it handed it on, and left the block time and what the two read.
  abbrev pub HandsOn : AnteDecorator env.runtime.Context env.runtime.Stores → Type 0
  HandsOn d =
      (ctx : env.runtime.Context) (tx : Tx) (simulate : Bool)
      (next : AnteHandler env.runtime.Context env.runtime.Stores) (s t : env.runtime.Stores)
      (c : env.runtime.Context)
      → d ctx tx simulate next s ≡ (ok c, t)
      → (ctx' : env.runtime.Context) × (s' : env.runtime.Stores) × (next ctx' tx simulate s'
          ≡ (ok c, t))
        × (env.runtime.block_time ctx' ≡ env.runtime.block_time ctx)
        × (env.groups s' ≡ env.groups s)
        × (env.registry s' ≡ env.registry s)

  chain_timing :
      (ds : List (AnteDecorator env.runtime.Context env.runtime.Stores)) (ctx : env.runtime.Context)
      (tx : Tx) (simulate : Bool) (s t : env.runtime.Stores) (c : env.runtime.Context)
      → env.runtime.chain_ante_decorators
          (group_proposal_timing env ∷ validator_whitelist env ∷ ds)
          ctx
          tx
          simulate
          s
        ≡ (ok c, t)
      → All (ExecAllowed env (env.runtime.block_time ctx) s) tx × All (ValidatorAllowed env s) tx
  chain_timing ds ctx tx simulate s t c h =
      let rest = env.runtime.chain_ante_decorators (validator_whitelist env ∷ ds) in
      let later = env.runtime.chain_ante_decorators ds in
      let h1 =
        sym (
          env.runtime.chain_cons (group_proposal_timing env) (validator_whitelist env ∷ ds) ctx tx
            simulate s)
        ∙ h in
      elim (group_proposal_timing_lem ctx tx simulate rest s) [
        | inl (allowed, e) ↦
            let h2 =
              sym (env.runtime.chain_cons (validator_whitelist env) ds ctx tx simulate s)
              ∙ sym e
              ∙ h1 in
            elim (validator_whitelist_lem ctx tx simulate later s) [
              | inl (listed, f) ↦ (allowed, listed)
              | inr (n, f) ↦ cc
            ]
        | inr (n, inl (x, stopped), same) ↦ cc
        | inr (n, inr stopped, same) ↦ cc
      ]

  allowed_moves :
      (now now' : ℕ) (s s' : env.runtime.Stores) (m : Msg)
      → now' ≡ now
      → env.groups s' ≡ env.groups s
      → ExecAllowed env now' s' m
      → ExecAllowed env now s m
  allowed_moves now now' s s' (group_exec id) et eg (p, e, h, a) = (
    p,
    sym (ap (λ x. env.group_keeper.proposal x id) eg) ∙ e,
    subst (λ x. p.voting_period_end ≤ x) et h,
    a,
  )
  allowed_moves now now' s s' (create_validator a) et eg h = tt
  allowed_moves now now' s s' (other_msg n) et eg h = tt

  listed_moves :
      (s s' : env.runtime.Stores) (m : Msg)
      → env.registry s' ≡ env.registry s
      → ValidatorAllowed env s' m
      → ValidatorAllowed env s m
  listed_moves s s' (group_exec id) er h = tt
  listed_moves s s' (create_validator a) er h =
      sym (ap (λ x. is_validator_whitelisted env.registry_keeper x a) er) ∙ h
  listed_moves s s' (other_msg n) er h = tt

  chain_accepts :
      (sdk : SdkDecorators env) (ds : List (AnteDecorator env.runtime.Context env.runtime.Stores))
      (ctx : env.runtime.Context) (tx : Tx) (simulate : Bool) (s t : env.runtime.Stores)
      (c : env.runtime.Context)
      → HandsOn sdk.set_up_context
      → HandsOn sdk.validate_basic
      → env.runtime.chain_ante_decorators
          (sdk.set_up_context
            ∷ sdk.validate_basic
            ∷ group_proposal_timing env
            ∷ validator_whitelist env
            ∷ ds)
          ctx
          tx
          simulate
          s
        ≡ (ok c, t)
      → All (ExecAllowed env (env.runtime.block_time ctx) s) tx × All (ValidatorAllowed env s) tx
  chain_accepts sdk ds ctx tx simulate s t c setup basic h =
      let inner = group_proposal_timing env ∷ validator_whitelist env ∷ ds in
      let (ctx1, s1, h1, t1, g1, r1) =
        setup ctx tx simulate (env.runtime.chain_ante_decorators (sdk.validate_basic ∷ inner)) s t c
          (sym (
              env.runtime.chain_cons sdk.set_up_context (sdk.validate_basic ∷ inner) ctx tx simulate
                s)
            ∙ h) in
      let (ctx2, s2, h2, t2, g2, r2) =
        basic ctx1 tx simulate (env.runtime.chain_ante_decorators inner) s1 t c
          (sym (env.runtime.chain_cons sdk.validate_basic inner ctx1 tx simulate s1) ∙ h1) in
      let (allowed, listed) = chain_timing ds ctx2 tx simulate s2 t c h2 in
      (
        All-map _ _ tx (λ m. allowed_moves _ _ s s2 m (t2 ∙ t1) (g2 ∙ g1)) allowed,
        All-map _ _ tx (λ m. listed_moves s s2 m (r2 ∙ r1)) listed,
      )

  -- Among the messages that stand themselves in a transaction that the chain's handler accepts, each
  -- MsgExec of x/group is for an accepted proposal whose voting period has ended, and each
  -- MsgCreateValidator is for a whitelisted operator, where the decorators of the SDK that stand first
  -- hand an accepted transaction on with the block time and the two modules' stores as they were.
  -- Nothing is said of messages that another message carries, nor of a proposal that a vote or a
  -- submission tries to execute.
  pub accepted_tx :
      (has_bank_keeper has_sign_mode_handler : Bool) (sdk : SdkDecorators env)
      (handler : AnteHandler env.runtime.Context env.runtime.Stores) (ctx : env.runtime.Context)
      (tx : Tx) (simulate : Bool) (s t : env.runtime.Stores) (c : env.runtime.Context)
      → HandsOn sdk.set_up_context
      → HandsOn sdk.validate_basic
      → new_ante_handler env has_bank_keeper has_sign_mode_handler sdk ≡ ok handler
      → handler ctx tx simulate s ≡ (ok c, t)
      → All (ExecAllowed env (env.runtime.block_time ctx) s) tx × All (ValidatorAllowed env s) tx
  unfolding new_ante_handler
  accepted_tx true true sdk handler ctx tx simulate s t c setup basic made h =
      chain_accepts sdk _ ctx tx simulate s t c setup basic
        (ap (λ f. f ctx tx simulate s) (ok_injective made) ∙ h)
  accepted_tx true false sdk handler ctx tx simulate s t c setup basic made h = cc
  accepted_tx false b sdk handler ctx tx simulate s t c setup basic made h = cc
