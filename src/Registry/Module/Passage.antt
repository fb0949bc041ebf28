-- ===== src/Registry/Module/Passage.antt =====
-- A genesis state of x/validatorregistry that one chain writes and another reads.
use veranatest.Registry.Module.{export_genesis_json, init_genesis_json, validate_genesis_json}
use veranatest.Export.{must}
use veranatest.Export.Rules.{Ensures-must_lift, must_ok}
use veranatest.Sdk.Modules.{JsonCodec, or_panic}
use veranatest.Registry.Genesis.RoundTrip.{export_ok, init-export, values}
use veranatest.Registry.Genesis.Indices.{DistinctIndices, validate_genesis_iff}
use veranatest.Registry.Genesis.{export_genesis, init_genesis, validate_genesis}
use veranatest.Registry.Types.{GenesisState, Keeper, State, Validator}
use veranatest.Sdk.Collections.{Distinct, IsReadable}
use veranatest.Prelude.{
  All, All-Listed, Bytes, List, Outcome, [], err, none, ok, ok_injective, panicked, refl, some,
  subst, sym, ◌∙◌, ◌∷◌, ◌≡◌, ◌≢◌,
}

-- Each record stands under its own index.
abbrev pub Keyed : List (Bytes × Validator) → Type 0
Keyed = All (λ (p : Bytes × Validator). p.1.index ≡ p.0)

values_apart :
    (key : Bytes) (l : List (Bytes × Validator))
    → Keyed l
    → All (λ (p : Bytes × Validator). p.0 ≢ key) l
    → All (λ (v : Validator). v.index ≢ key) (values l)
unfolding values
values_apart key [] k a = tt
values_apart key ((j, v) ∷ l) (k, ks) (a, as') = (λ e. a (sym k ∙ e), values_apart key l ks as')

values-DistinctIndices :
    (l : List (Bytes × Validator)) → Keyed l → Distinct l → DistinctIndices (values l)
unfolding values
values-DistinctIndices [] k d = tt
values-DistinctIndices ((key, v) ∷ l) (k, ks) (d, ds) = (
  subst (λ i. All (λ (w : Validator). w.index ≢ i) (values l)) (sym k) (values_apart key l ks d),
  values-DistinctIndices l ks ds,
)

module _ (k : Keeper) (s : State k) where
  -- What `ExportGenesis` gives passes `Validate`, where each record stands under its own index.
  exported_passes :
      (gs : GenesisState)
      → ((key : Bytes) (v : Validator)
          → k.validator.lookup s.validator key ≡ some v
          → v.index ≡ key)
      → export_genesis k s ≡ ok gs
      → validate_genesis gs ≡ ok tt
  exported_passes gs keyed e =
      let l = k.validator.reached s.validator in
      let all : Keyed l =
        All-Listed _ l (λ p h. keyed p.0 p.1 (k.validator.reached_sound s.validator p.0 p.1 h)) in
      (validate_genesis_iff gs).0.1 (
        subst DistinctIndices (sym (export_ok k s gs e).0)
          (values-DistinctIndices l all (k.validator.reached_once s.validator)))

module _ (cdc : JsonCodec GenesisState) (k : Keeper) where
  written :
      (s : State k) (bz : Bytes)
      → export_genesis_json cdc k s ≡ ok bz
      → (gs : GenesisState) × (export_genesis k s ≡ ok gs) × (cdc.unmarshal_json bz ≡ ok gs)
  unfolding export_genesis_json
  written s bz h = go (export_genesis k s) refl
    where
      text :
          (gs : GenesisState) (r : Outcome Bytes)
          → cdc.marshal_json gs ≡ r
          → or_panic r ≡ ok bz
          → cdc.unmarshal_json bz ≡ ok gs
      text gs (ok b) e q = cdc.unmarshal_marshal gs bz (e ∙ q)
      text gs (err x) e q = cc
      text gs panicked e q = cc

      go :
          (r : Outcome GenesisState)
          → export_genesis k s ≡ r
          → (gs : GenesisState) × (export_genesis k s ≡ ok gs) × (cdc.unmarshal_json bz ≡ ok gs)
      go (ok gs) e = (gs, e, text gs (cdc.marshal_json gs) refl (rw (export_genesis_json, e) at h))
      go (err x) e = absurd (let bad = rw (export_genesis_json, e) at h in cc)
      go panicked e = absurd (let bad = rw (export_genesis_json, e) at h in cc)

  read :
      (fresh t : State k) (bz : Bytes) (gs : GenesisState)
      → cdc.unmarshal_json bz ≡ ok gs
      → init_genesis_json cdc k bz fresh ≡ (ok tt, t)
      → init_genesis k gs fresh ≡ (ok tt, t)
  unfolding init_genesis_json
  read fresh t bz gs e h =
      (Ensures-must_lift {P = λ u w. init_genesis k gs fresh ≡ (ok u, w)} (cdc.unmarshal_json bz)
          (λ g. must (init_genesis k g))
          λ g q. record {
            at = λ a w r.
                let same : g ≡ gs = ok_injective (sym q ∙ e) in
                subst (λ x. init_genesis k x fresh ≡ (ok a, w)) same
                  (must_ok (init_genesis k g) fresh w a r);
          }).at
        tt t h

  -- The bytes that `AppModule.ExportGenesis` writes for a registry that can be read in full, with each
  -- record under its own index, pass `AppModule.ValidateGenesis`. If `AppModule.InitGenesis` loads
  -- them into an empty registry, it has the same records at every key, and the same parameters.
  pub genesis_json_passes :
      (s fresh t : State k) (bz : Bytes)
      → IsReadable k.validator s.validator
      → ((key : Bytes) (v : Validator)
          → k.validator.lookup s.validator key ≡ some v
          → v.index ≡ key)
      → ((key : Bytes) → k.validator.lookup fresh.validator key ≡ none)
      → export_genesis_json cdc k s ≡ ok bz
      → init_genesis_json cdc k bz fresh ≡ (ok tt, t)
      → (validate_genesis_json cdc bz ≡ ok tt)
        × ((key : Bytes) → k.validator.lookup t.validator key ≡ k.validator.lookup s.validator key)
        × (k.params.content t.params ≡ k.params.content s.params)
  unfolding validate_genesis_json
  genesis_json_passes s fresh t bz readable keyed empty exported loaded =
      let (gs, out, text) = written s bz exported in
      let (same, params) =
        init-export k gs s fresh t readable keyed empty out (read fresh t bz gs text loaded) in
      (rw (validate_genesis_json, text) (exported_passes k s gs keyed out), same, params)
