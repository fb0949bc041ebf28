-- ===== src/Registry/Params.antt =====
-- `UpdateParams` of x/validatorregistry (keeper/msg_update_params.go) on every branch.
use veranatest.Prelude.{
  Ensures, Ensures-guard, Ensures-lift, FailsClean, FailsClean-guard, FailsClean-lift, Outcome,
  Succeeds, ap, arith, bytes_eq→eq, err, inl, inr, ok, panicked, refl, some, sym, ◌∙◌, ◌≡◌, ◌⊎◌,
}
use veranatest.Registry.Types.{Keeper, MsgUpdateParams, Params, State}
use veranatest.Registry.Handlers.{set_params, update_params}

-- What an accepted update shows and leaves.
pub record Updated (k : Keeper) (req : MsgUpdateParams) (s t : State k) : Type 0 where
  pub by_authority : k.address_codec.string_to_bytes req.authority ≡ ok k.authority
  pub stored : k.params.content t.params ≡ some req.params
  pub same_validators : t.validator ≡ s.validator
  pub same_events : t.events ≡ s.events

set_params_ok :
    (k : Keeper) (p : Params) (s t : State k) (u : Unit {0})
    → set_params k p s ≡ (ok u, t)
    → (q : k.params.Store) × (k.params.set s.params p ≡ ok q) × (t ≡ record s { params = q })
unfolding set_params
set_params_ok k p s t u h = go (k.params.set s.params p) refl
  where
    go :
        (r : Outcome k.params.Store)
        → k.params.set s.params p ≡ r
        → (q : k.params.Store) × (k.params.set s.params p ≡ ok q) × (t ≡ record s { params = q })
    go (ok q) e = (q, e, ground arith)
    go (err x) e = ground arith
    go panicked e = ground arith

update_Ensures :
    (k : Keeper) (req : MsgUpdateParams) (s : State k)
    → Ensures (update_params k req) s (λ u t. Updated k req s t)
unfolding update_params
update_Ensures k req s = Ensures-lift _ _ λ authority decoded. Ensures-guard _ _ _ λ same.
    Ensures-lift _ _ λ v valid. record {
      at = λ u t h.
          let (q, set, e) = set_params_ok k req.params s t u h in
          record {
            by_authority = decoded ∙ ap ok (sym (bytes_eq→eq _ _ same));
            stored =
                ap (λ (x : State k). k.params.content x.params) e
                ∙ k.params.set_ok s.params q req.params set;
            same_validators = ap (λ (x : State k). x.validator) e;
            same_events = ap (λ (x : State k). x.events) e;
          };
    }

-- An accepted update was sent by the authority, stores the parameters, and leaves the registry.
pub update_ok :
    (k : Keeper) (req : MsgUpdateParams) (s t : State k)
    → update_params k req s ≡ (ok tt, t)
    → Updated k req s t
update_ok k req s t h = (update_Ensures k req s).at tt t h

set_params-FailsClean : (k : Keeper) (p : Params) → FailsClean (set_params k p)
unfolding set_params
set_params-FailsClean k p = record { at = λ s. go s (k.params.set s.params p) refl }
  where
    go :
        (s : State k) (r : Outcome k.params.Store)
        → k.params.set s.params p ≡ r
        → Succeeds (set_params k p s).0 ⊎ ((set_params k p s).1 ≡ s)
    go s (ok q) e = inl (rw (e, Succeeds, set_params) tt)
    go s (err x) e = inr (rw (e, set_params))
    go s panicked e = inr (rw (e, set_params))

-- A refused update changes nothing.
pub update-FailsClean : (k : Keeper) (req : MsgUpdateParams) → FailsClean (update_params k req)
unfolding update_params
update-FailsClean k req = FailsClean-lift _ _ λ authority.
    FailsClean-guard _ _ _ (FailsClean-lift _ _ λ v. set_params-FailsClean k req.params)
