-- ===== src/Registry/Genesis/RoundTrip.antt =====
-- What `InitGenesis` loads, and that loading an exported genesis gives the registry back
-- (keeper/genesis.go).
use veranatest.Sdk.Collections.{IsReadable, visit}
use veranatest.Prelude.{
  All, Bool-cases, Bytes, Ensures, Ensures-bind, List, Listed, Listed-All, Option, Outcome, [], ap,
  append-nil, append_assoc, arith, bytes_eq, bytes_eq_iff, bytes_eq→eq, err, if◌then◌else◌, inl,
  inr, none, ok, panicked, pure, refl, some, subst, sym, ◌++◌, ◌∙◌, ◌∷◌, ◌≡◌, ◌≢◌, ◌⊎◌,
}
use veranatest.Registry.Types.{GenesisState, Keeper, Params, State, Validator}
use veranatest.Registry.Handlers.{set_params, set_validator}
use veranatest.Registry.Genesis.{append_validator, export_genesis, init_genesis, set_validators}

-- What a store holds at a key after the records of a list are set in turn.
abbrev pub Loaded : (k : Keeper) → List Validator → State k → State k → Bytes → Type 0
Loaded k l s t key =
    ((v : Validator) × Listed v l × (v.index ≡ key) × (k.validator.lookup t.validator key ≡ some v))
    ⊎ (All (λ (v : Validator). v.index ≢ key) l
        × (k.validator.lookup t.validator key ≡ k.validator.lookup s.validator key))

set_validator_ok :
    (k : Keeper) (index : Bytes) (v : Validator) (s t : State k) (u : Unit {0})
    → set_validator k index v s ≡ (ok u, t)
    → (q : k.validator.Store) × (k.validator.set s.validator index v ≡ ok q)
      × (t ≡ record s { validator = q })
unfolding set_validator
set_validator_ok k index v s t u h = go (k.validator.set s.validator index v) refl
  where
    go :
        (r : Outcome k.validator.Store)
        → k.validator.set s.validator index v ≡ r
        → (q : k.validator.Store) × (k.validator.set s.validator index v ≡ ok q)
          × (t ≡ record s { validator = q })
    go (ok q) e = (q, e, ground arith)
    go (err x) e = ground arith
    go panicked e = ground arith

lookup-set_validator :
    (k : Keeper) (index : Bytes) (v : Validator) (s t : State k) (u : Unit {0}) (key : Bytes)
    → set_validator k index v s ≡ (ok u, t)
    → k.validator.lookup t.validator key
      ≡ (if bytes_eq index key then some v else k.validator.lookup s.validator key)
lookup-set_validator k index v s t u key h =
    let (q, set, e) = set_validator_ok k index v s t u h in
    ap (λ (x : State k). k.validator.lookup x.validator key) e
    ∙ k.validator.set_ok s.validator q index v set key

load_first :
    (k : Keeper) (elem : Validator) (rest : List Validator) (s m t : State k) (key : Bytes)
    → k.validator.lookup m.validator key
      ≡ (if bytes_eq elem.index key then some elem else k.validator.lookup s.validator key)
    → Loaded k rest m t key
    → Loaded k (elem ∷ rest) s t key
load_first k elem rest s m t key set (inl (v, l, at, found)) = inl (v, inr l, at, found)
load_first k elem rest s m t key set (inr (none_at, same)) =
    elim (Bool-cases (bytes_eq elem.index key)) [
      | inl e ↦ inl (elem, inl refl, bytes_eq→eq _ _ e, ground arith)
      | inr e ↦ inr ((λ p. ground (arith, bytes_eq_iff elem.index key), none_at), ground arith)
    ]

set_validators_Ensures :
    (k : Keeper) (l : List Validator) (s : State k) (key : Bytes)
    → Ensures (set_validators k l) s (λ u t. Loaded k l s t key × (t.params ≡ s.params))
unfolding set_validators
set_validators_Ensures k [] s key = record {
  at = λ u t h. unfold pure in (inr (tt, ground arith), ground arith);
}
set_validators_Ensures k (elem ∷ rest) s key = Ensures-bind _ _ λ u m h. record {
  at = λ w t g.
      let (loaded, same) = (set_validators_Ensures k rest m key).at w t g in
      let (q, set, e) = set_validator_ok k elem.index elem s m u h in
      (
        load_first k elem rest s m t key (lookup-set_validator k elem.index elem s m u key h)
            loaded,
        same ∙ ap (λ (x : State k). x.params) e,
      );
}

params_Ensures :
    (k : Keeper) (p : Params) (s : State k)
    → Ensures
        (set_params k p)
        s
        (λ u t. (t.validator ≡ s.validator) × (k.params.content t.params ≡ some p))
unfolding set_params
params_Ensures k p s = record { at = λ u t h. go u t (k.params.set s.params p) refl h }
  where
    go :
        (u : Unit {0}) (t : State k) (r : Outcome k.params.Store)
        → k.params.set s.params p ≡ r
        → set_params k p s ≡ (ok u, t)
        → (t.validator ≡ s.validator) × (k.params.content t.params ≡ some p)
    go u t (ok q) e h =
        let same : t ≡ record s { params = q } = ground arith in
        (
          ap (λ (x : State k). x.validator) same,
          ap (λ (x : State k). k.params.content x.params) same ∙ k.params.set_ok s.params q p e,
        )
    go u t (err x) e h = ground arith
    go u t panicked e h = ground arith

init_Ensures :
    (k : Keeper) (gs : GenesisState) (s : State k) (key : Bytes)
    → Ensures
        (init_genesis k gs)
        s
        (λ u t. Loaded k gs.validator_map s t key × (k.params.content t.params ≡ some gs.params))
unfolding init_genesis
init_Ensures k gs s key = Ensures-bind _ _ λ u m h. record {
  at = λ w t g.
      let (same, stored) = (params_Ensures k gs.params m).at w t g in
      let (loaded, kept) = (set_validators_Ensures k gs.validator_map s key).at u m h in
      (
        subst (λ x. Loaded k gs.validator_map s (record t { validator = x }) key) (sym same) loaded,
        stored,
      );
}

-- After `InitGenesis` each key holds a record of the genesis state with that index, or, where there
-- is none, what it held before; and the parameters are those of the genesis state.
pub init_genesis_ok :
    (k : Keeper) (gs : GenesisState) (s t : State k)
    → init_genesis k gs s ≡ (ok tt, t)
    → ((key : Bytes) → Loaded k gs.validator_map s t key)
      × (k.params.content t.params ≡ some gs.params)
init_genesis_ok k gs s t h =
    ((λ key. ((init_Ensures k gs s key).at tt t h).0), ((init_Ensures k gs s []).at tt t h).1)

unfoldable pub values : List (Bytes × Validator) → List Validator
values [] = []
values ((key, v) ∷ rest) = v ∷ values rest

visit_appends :
    (l : List (Bytes × Validator)) (acc : List Validator)
    → visit append_validator l acc ≡ acc ++ values l
unfolding append_validator values
visit_appends [] acc = sym (append-nil acc)
visit_appends ((key, v) ∷ l) acc =
    visit_appends l (acc ++ (v ∷ [])) ∙ append_assoc acc (v ∷ []) (values l)

Listed-values :
    (l : List (Bytes × Validator)) (v : Validator)
    → Listed v (values l)
    → (key : Bytes) × Listed (key, v) l
unfolding values
Listed-values [] v h = absurd h
Listed-values ((key, w) ∷ l) v (inl e) = (key, inl (ap (λ x. (key, x)) e))
Listed-values ((key, w) ∷ l) v (inr h) = let (j, listed) = Listed-values l v h in (j, inr listed)

values-Listed :
    (l : List (Bytes × Validator)) (key : Bytes) (v : Validator)
    → Listed (key, v) l
    → Listed v (values l)
unfolding values
values-Listed [] key v h = absurd h
values-Listed ((j, w) ∷ l) key v (inl e) = inl (ap (λ (p : _ × _). p.1) e)
values-Listed ((j, w) ∷ l) key v (inr h) = inr (values-Listed l key v h)

pub export_ok :
    (k : Keeper) (s : State k) (gs : GenesisState)
    → export_genesis k s ≡ ok gs
    → (gs.validator_map ≡ values (k.validator.reached s.validator))
      × (k.params.content s.params ≡ some gs.params)
unfolding export_genesis
export_ok k s gs h = go (k.params.get s.params) refl (walked.1) refl
  where
    walked : List Validator × Outcome (Unit {0})
    walked = k.validator.walk (List Validator) s.validator append_validator []

    go :
        (r : Outcome Params)
        → k.params.get s.params ≡ r
        → (w : Outcome (Unit {0})) → walked.1 ≡ w
        → (gs.validator_map ≡ values (k.validator.reached s.validator))
          × (k.params.content s.params ≡ some gs.params)
    go (ok p) e (ok u) g =
        let same : record { params = p; validator_map = walked.0 } ≡ gs = ground arith in
        (
          ap (λ (x : GenesisState). x.validator_map) (sym same)
              ∙ k.validator.walk_visits (List Validator) s.validator append_validator []
              ∙ visit_appends (k.validator.reached s.validator) [],
          k.params.get_ok s.params p e ∙ ap (λ (x : GenesisState). some x.params) same,
        )
    go (ok p) e (err x) g = ground arith
    go (ok p) e panicked g = ground arith
    go (err x) e w g = ground arith
    go panicked e w g = ground arith

Option-cases : (o : Option Validator) → (o ≡ none) ⊎ ((v : Validator) × (o ≡ some v))
Option-cases none = inl refl
Option-cases (some v) = inr (v, refl)

reload :
    (k : Keeper) (s fresh t : State k) (key : Bytes)
    → IsReadable k.validator s.validator
    → ((j : Bytes) (v : Validator) → k.validator.lookup s.validator j ≡ some v → v.index ≡ j)
    → k.validator.lookup fresh.validator key ≡ none
    → Loaded k (values (k.validator.reached s.validator)) fresh t key
    → k.validator.lookup t.validator key ≡ k.validator.lookup s.validator key
reload k s fresh t key readable keyed empty (inl (v, listed, at, found)) =
    let (j, pair) = Listed-values _ v listed in
    let stored = k.validator.reached_sound s.validator j v pair in
    found ∙ sym stored ∙ ap (k.validator.lookup s.validator) (sym (keyed j v stored) ∙ at)
reload k s fresh t key readable keyed empty (inr (absent, same)) =
    elim (Option-cases (k.validator.lookup s.validator key)) [
      | inl e ↦ same ∙ empty ∙ sym e
      | inr (v, e) ↦
          absurd
            (Listed-All _ _ absent v (values-Listed _ key v (readable key v e)) (keyed key v e))
    ]

-- Exporting a registry that can be read in full and loading the result into an empty one gives the
-- same records at every key, and the same parameters.
pub init-export :
    (k : Keeper) (gs : GenesisState) (s fresh t : State k)
    → IsReadable k.validator s.validator
    → ((key : Bytes) (v : Validator) → k.validator.lookup s.validator key ≡ some v → v.index ≡ key)
    → ((key : Bytes) → k.validator.lookup fresh.validator key ≡ none)
    → export_genesis k s ≡ ok gs
    → init_genesis k gs fresh ≡ (ok tt, t)
    → ((key : Bytes) → k.validator.lookup t.validator key ≡ k.validator.lookup s.validator key)
      × (k.params.content t.params ≡ k.params.content s.params)
init-export k gs s fresh t readable keyed empty exported loaded =
    let (all, stored) = export_ok k s gs exported in
    let (at_key, params) = init_genesis_ok k gs fresh t loaded in
    (
      (λ key.
          reload k s fresh t key readable keyed (empty key)
            (subst (λ l. Loaded k l fresh t key) all (at_key key))),
      params ∙ sym stored,
    )
