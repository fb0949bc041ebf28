-- ===== src/TrustDeposit/Updates.antt =====
-- The parameters of x/td: keeper/msg_update_params.go and keeper/genesis.go.
use veranatest.TrustDeposit.Messages.{set_params_ok}
use veranatest.Prelude.{
  Ensures, Ensures-guard, Ensures-lift, FailsClean, FailsClean-guard, FailsClean-lift, Outcome,
  Succeeds, ap, arith, bytes_eq→eq, err, inl, inr, ok, ok_injective, panicked, refl, some, subst,
  sym, ◌∙◌, ◌≡◌, ◌≢◌, ◌⊎◌,
}
use veranatest.TrustDeposit.Types.{GenesisState, Keeper, MsgUpdateParams, Params, State, set_params}
use veranatest.TrustDeposit.Handlers.{export_genesis, init_genesis, update_params}

module _ (k : Keeper) where
  -- What an accepted update shows and leaves.
  pub record Updated (req : MsgUpdateParams k.dec) (s t : State k) : Type 0 where
    pub by_authority : k.address_codec.string_to_bytes req.authority ≡ ok k.authority
    pub stored : k.params.content t.params ≡ some req.params
    pub same_bank : t.bank ≡ s.bank
    pub same_dust : t.dust_amount ≡ s.dust_amount

  update_Ensures :
      (req : MsgUpdateParams k.dec) (s : State k)
      → Ensures (update_params k req) s (λ u t. Updated req s t)
  unfolding update_params
  update_Ensures req s = Ensures-lift _ _ λ authority decoded. Ensures-guard _ _ _ λ same.
      Ensures-lift _ _ λ v valid. record {
        at = λ u t h.
            let (stored, bank, dust) = (set_params_ok k req.params s).at u t h in
            record {
              by_authority = decoded ∙ ap ok (sym (bytes_eq→eq _ _ same));
              stored = stored;
              same_bank = bank;
              same_dust = dust;
            };
      }

  set_params-FailsClean : (p : Params k.dec) → FailsClean (set_params k p)
  unfolding set_params
  set_params-FailsClean p = record { at = λ s. go s (k.params.set s.params p) refl }
    where
      go :
          (s : State k) (r : Outcome k.params.Store)
          → k.params.set s.params p ≡ r
          → Succeeds (set_params k p s).0 ⊎ ((set_params k p s).1 ≡ s)
      go s (ok q) e = inl (rw (e, Succeeds, set_params) tt)
      go s (err x) e = inr (rw (e, set_params))
      go s panicked e = inr (rw (e, set_params))

  update_FailsClean_lem : (req : MsgUpdateParams k.dec) → FailsClean (update_params k req)
  unfolding update_params
  update_FailsClean_lem req = Ensures_clean
    where
      Ensures_clean : FailsClean (update_params k req)
      Ensures_clean = FailsClean-lift _ _ λ authority.
          FailsClean-guard _ _ _ (FailsClean-lift _ _ λ v. set_params-FailsClean req.params)

  refused_same :
      (req : MsgUpdateParams k.dec) (s t : State k) (r : Outcome (Unit {0}))
      → (Succeeds r → ⊥)
      → update_params k req s ≡ (r, t)
      → t ≡ s
  refused_same req s t r bad h =
      let left = ap (λ (x : Outcome (Unit {0}) × State k). x.1) h in
      elim ((update_FailsClean_lem req).at s) [
        | inl good ↦
            absurd (bad (subst Succeeds (ap (λ (x : Outcome (Unit {0}) × State k). x.0) h) good))
        | inr same ↦ sym left ∙ same
      ]

  -- An update that is accepted was sent by the authority, stores its parameters and leaves the bank and
  -- the dust; one that returns an error or panics changes nothing.
  pub update_params_lem :
      (req : MsgUpdateParams k.dec) (s t : State k) (r : Outcome (Unit {0}))
      → update_params k req s ≡ (r, t)
      → ((r ≡ ok tt) × Updated req s t) ⊎ ((r ≢ ok tt) × (t ≡ s))
  update_params_lem req s t (ok u) h = inl (refl, (update_Ensures req s).at u t h)
  update_params_lem req s t (err x) h = inr ((λ e. cc), refused_same req s t (err x) (λ g. g) h)
  update_params_lem req s t panicked h = inr ((λ e. cc), refused_same req s t panicked (λ g. g) h)

  -- The genesis that is exported, once loaded, gives the parameters back.
  pub init-export_params :
      (gs : GenesisState k.dec) (s fresh t : State k)
      → export_genesis k s ≡ ok gs
      → init_genesis k gs fresh ≡ (ok tt, t)
      → (k.params.content t.params ≡ k.params.content s.params)
        × (t.dust_amount ≡ fresh.dust_amount)
  unfolding export_genesis init_genesis
  init-export_params gs s fresh t exported loaded =
      let (stored, bank, dust) = (set_params_ok k gs.params fresh).at tt t loaded in
      (stored ∙ sym (go (k.params.get s.params) refl), dust)
    where
      go :
          (r : Outcome (Params k.dec))
          → k.params.get s.params ≡ r
          → k.params.content s.params ≡ some gs.params
      go (ok p) e =
          k.params.get_ok s.params p e
          ∙ ap (λ (g : GenesisState k.dec). some g.params)
              (ok_injective (rw (e, export_genesis) at exported))
      go (err x) e = ground arith
      go panicked e = ground arith
