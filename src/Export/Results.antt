-- ===== src/Export/Results.antt =====
-- How app/export.go ends: its result, the height that it gives, and its errors.
use veranatest.Export.{
  Application, ExportedApp, export_app_state, export_app_state_and_validators, next_height,
  prep_for_zero_height_genesis,
}
use veranatest.Export.Panics.{prep-NeverErrs}
use veranatest.Prelude.{
  Bool, Bytes, Ensures, Ensures-bind, Ensures-gets, Ensures-lift, Error, List, Outcome, ap,
  continue, err, false, gets, lift, ok, ok_injective, panicked, pure, raise, refl, subst, sym, true,
  ◌>>=◌, ◌∙◌, ◌≡◌,
}
use veranatest.Prelude.Int.{pos, ℤ}
use veranatest.Sdk.Staking.{Keepers}

module _ (k : Keepers) (app : Application k) where
  abbrev pub export_context : k.Context
  export_context = app.new_context app.last_block_height

  -- The record holds what the modules and x/staking give in these stores.
  pub record Exports (modules : List Bytes) (t : k.Stores)
      (a : ExportedApp app.ValidatorSet app.ConsensusParams) : Type 0 where
    pub states : app.ModuleStates
    pub exported : app.export_genesis_for_modules export_context modules t ≡ ok states
    pub encoded : app.marshal_indent states ≡ ok a.app_state
    pub written : app.write_validators export_context t ≡ ok a.validators
    pub consensus : a.consensus_params ≡ app.get_consensus_params export_context t

  ended : {A : Type 0} (a b : A) (s t : k.Stores) → pure a s ≡ (ok b, t) → (a ≡ b) × (s ≡ t)
  unfolding pure
  ended {A} a b s t h = (
    ok_injective (ap (λ (p : Outcome A × k.Stores). p.0) h),
    ap (λ (p : Outcome A × k.Stores). p.1) h,
  )

  export_Ensures :
      (height : ℤ) (modules : List Bytes) (s : k.Stores)
      → Ensures
          (export_app_state k app height modules)
          s
          λ a t. (t ≡ s) × (a.height ≡ height) × Exports modules t a
  unfolding export_app_state
  export_Ensures height modules s = Ensures-gets _ _ λ states exported.
      Ensures-lift _ _ λ text encoded. Ensures-gets _ _ λ set written.
        Ensures-gets _ _ λ params read. record {
          at = λ a t h.
              let e = ended _ a s t h in
              (
                sym e.1,
                ap (λ (x : ExportedApp _ _). x.height) (sym e.0),
                record {
                  states = states;
                  exported =
                      subst
                        (λ u. app.export_genesis_for_modules export_context modules u ≡ ok states)
                        e.1 exported;
                  encoded = encoded ∙ ap (λ (x : ExportedApp _ _). ok x.app_state) e.0;
                  written =
                      subst (λ u. app.write_validators export_context u ≡ ok set) e.1 written
                      ∙ ap (λ (x : ExportedApp _ _). ok x.validators) e.0;
                  consensus =
                      ap (λ (x : ExportedApp _ _). x.consensus_params) (sym e.0)
                      ∙ (ok_injective (sym read)
                          ∙ ap (app.get_consensus_params export_context) e.1);
                },
              );
        }

  -- An export that returns no error gives what the modules and x/staking give in the stores it
  -- leaves. For a start at height zero the preparation has run and the height is 0; otherwise the
  -- stores are as they were and the height is the one after the last.
  pub export_ok :
      (for_zero_height : Bool) (allowed modules : List Bytes) (s t : k.Stores)
      (a : ExportedApp app.ValidatorSet app.ConsensusParams)
      → export_app_state_and_validators k app for_zero_height allowed modules s ≡ (ok a, t)
      → Exports modules t a
        × (for_zero_height ≡ true
            → (prep_for_zero_height_genesis k export_context allowed s ≡ (ok tt, t))
              × (a.height ≡ pos 0))
        × (for_zero_height ≡ false → (t ≡ s) × (a.height ≡ next_height app.last_block_height))
  unfolding export_app_state_and_validators
  export_ok false allowed modules s t a h =
      let r = (export_Ensures (next_height app.last_block_height) modules s).at a t h in
      (r.2, (λ e. cc), (λ e. (r.0, r.1)))
  export_ok true allowed modules s t a h = go.at a t h
    where
      go : Ensures (export_app_state_and_validators k app true allowed modules) s λ a t.
          Exports modules t a
          × (true ≡ true
              → (prep_for_zero_height_genesis k export_context allowed s ≡ (ok tt, t))
                × (a.height ≡ pos 0))
          × (true ≡ false → (t ≡ s) × (a.height ≡ next_height app.last_block_height))
      go = Ensures-bind _ _ λ u t1 prepared. record {
        at = λ a t h.
            let r = (export_Ensures (pos 0) modules t1).at a t h in
            (
              r.2,
              (λ e. (prepared ∙ ap {A = k.Stores} (λ x. (ok tt, x)) (sym r.0), r.1)),
              (λ e. cc),
            );
      }

  -- A library that the last steps call has returned this error.
  pub data Fails (modules : List Bytes) (t : k.Stores) (e : Error) : Type 0 where
    bad_genesis :
        app.export_genesis_for_modules export_context modules t ≡ err e → Fails modules t e
    bad_encoding :
        (states : app.ModuleStates) → app.marshal_indent states ≡ err e → Fails modules t e
    bad_validators : app.write_validators export_context t ≡ err e → Fails modules t e

  failed :
      {A : Type 0} (x e : Error) (s t : k.Stores)
      → raise {A = A} x s ≡ (err e, t)
      → (x ≡ e) × (s ≡ t)
  unfolding raise
  failed x e s t h = (cc, cc)

  export_app_state_err :
      (height : ℤ) (modules : List Bytes) (s t : k.Stores) (e : Error)
      → export_app_state k app height modules s ≡ (err e, t)
      → Fails modules s e × (t ≡ s)
  unfolding export_app_state ◌>>=◌ gets lift pure raise
  export_app_state_err height modules s t e h =
      go1 (app.export_genesis_for_modules export_context modules s) refl
    where
      go3 :
          (states : app.ModuleStates) (text : Bytes) (r : Outcome app.ValidatorSet)
          → app.export_genesis_for_modules export_context modules s ≡ ok states
          → app.marshal_indent states ≡ ok text
          → app.write_validators export_context s ≡ r
          → Fails modules s e × (t ≡ s)
      go3 states text (ok v) q1 q2 q3 = let g = rw (q1, q2, q3, continue) at h in cc
      go3 states text (err x) q1 q2 q3 =
          let g = rw (q1, q2, q3, continue) at h in
          let f = failed x e s t g in (bad_validators (q3 ∙ ap err f.0), sym f.1)
      go3 states text panicked q1 q2 q3 = let g = rw (q1, q2, q3, continue) at h in cc

      go2 :
          (states : app.ModuleStates) (r : Outcome Bytes)
          → app.export_genesis_for_modules export_context modules s ≡ ok states
          → app.marshal_indent states ≡ r
          → Fails modules s e × (t ≡ s)
      go2 states (ok text) q1 q2 =
          go3 states text (app.write_validators export_context s) q1 q2 refl
      go2 states (err x) q1 q2 =
          let g = rw (q1, q2, continue) at h in
          let f = failed x e s t g in (bad_encoding states (q2 ∙ ap err f.0), sym f.1)
      go2 states panicked q1 q2 = let g = rw (q1, q2, continue) at h in cc

      go1 :
          (r : Outcome app.ModuleStates)
          → app.export_genesis_for_modules export_context modules s ≡ r
          → Fails modules s e × (t ≡ s)
      go1 (ok states) q = go2 states (app.marshal_indent states) q refl
      go1 (err x) q =
          let g = rw (q, continue) at h in
          let f = failed x e s t g in (bad_genesis (q ∙ ap err f.0), sym f.1)
      go1 panicked q = let g = rw (q, continue) at h in cc

  -- An export fails only with an error of the export of the modules, of the encoding or of the list
  -- of validators, in the stores that it leaves; without a start at height zero these are the stores
  -- as they were.
  pub export_err :
      (for_zero_height : Bool) (allowed modules : List Bytes) (s t : k.Stores) (e : Error)
      → export_app_state_and_validators k app for_zero_height allowed modules s ≡ (err e, t)
      → Fails modules t e × (for_zero_height ≡ false → t ≡ s)
  unfolding export_app_state_and_validators ◌>>=◌
  export_err false allowed modules s t e h =
      let r = export_app_state_err (next_height app.last_block_height) modules s t e h in
      (subst (λ u. Fails modules u e) (sym r.1) r.0, λ q. r.1)
  export_err true allowed modules s t e h =
      go (prep_for_zero_height_genesis k export_context allowed s) refl
    where
      go :
          (r : Outcome (Unit {0}) × k.Stores)
          → prep_for_zero_height_genesis k export_context allowed s ≡ r
          → Fails modules t e × (true ≡ false → t ≡ s)
      go (ok u, t1) q =
          let r = export_app_state_err (pos 0) modules t1 t e (rw (q, continue) at h) in
          (subst (λ u. Fails modules u e) (sym r.1) r.0, λ n. cc)
      go (err x, t1) q = absurd ((prep-NeverErrs k export_context allowed).at s t1 x q)
      go (panicked, t1) q = let g = rw (q, continue) at h in cc
