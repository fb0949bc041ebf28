-- ===== src/Registry/Genesis.antt =====
-- Genesis of x/validatorregistry: types/genesis.go and keeper/genesis.go.
pub mod Indices
pub mod RoundTrip
use veranatest.Prelude.{
  Bool, Bytes, Error, Exec, List, Outcome, [], bytes_eq, err, false, if◌then◌else◌, ok, panicked,
  pure, ◌++◌, ◌>>◌, ◌||◌, ◌∷◌,
}
use veranatest.Registry.Types.{
  GenesisState, Keeper, State, Validator, default_genesis, validate_params,
}
use veranatest.Registry.Handlers.{set_params, set_validator}

-- A Go map with empty values, as the list of its keys.
unfoldable pub contains : List Bytes → Bytes → Bool
contains [] index = false
contains (x ∷ xs) index = bytes_eq x index || contains xs index

-- The loop of `GenesisState.Validate`; `seen` is `validatorIndexMap`.
unfoldable pub check_indices : List Bytes → List Validator → Outcome (Unit {0})
unfolding contains
check_indices seen [] = ok tt
check_indices seen (elem ∷ rest) =
    let more = check_indices (elem.index ∷ seen) rest in
    if contains seen elem.index then err Error.duplicated_index else more

-- `GenesisState.Validate`
unfoldable pub validate_genesis : GenesisState → Outcome (Unit {0})
unfolding check_indices validate_params
validate_genesis gs = elim (check_indices [] gs.validator_map) [
  | ok u ↦ validate_params gs.params
  | err e ↦ err e
  | panicked ↦ panicked
]

-- The loop of `InitGenesis`.
unfoldable pub set_validators : (k : Keeper) → List Validator → Exec (State k) Unit
unfolding set_validator
set_validators k [] = pure tt
set_validators k (elem ∷ rest) = set_validator k elem.index elem >> set_validators k rest

unfoldable pub init_genesis : (k : Keeper) → GenesisState → Exec (State k) Unit
unfolding set_validators set_params
init_genesis k gen_state = set_validators k gen_state.validator_map >> set_params k gen_state.params

-- The callback of `ExportGenesis`.
unfoldable pub append_validator : Bytes → Validator → List Validator → Bool × List Validator
append_validator key val acc = (false, acc ++ (val ∷ []))

unfoldable pub export_genesis : (k : Keeper) → State k → Outcome GenesisState
unfolding default_genesis
export_genesis k s = elim (k.params.get s.params) [
  | ok p ↦
      let walked =
        k.validator.walk (List Validator) s.validator append_validator
          default_genesis.validator_map in
      elim walked.1 [
        | ok u ↦ ok (record { params = p; validator_map = walked.0 })
        | err e ↦ err e
        | panicked ↦ panicked
      ]
  | err e ↦ err e
  | panicked ↦ panicked
]
