-- ===== src/Registry/Genesis/Indices.antt =====
-- `GenesisState.Validate` of x/validatorregistry (types/genesis.go) against its purpose.
use veranatest.Prelude.{
  All, All-map, Bool-cases, Bytes, Error, List, [], arith, bytes_eq_iff, err, false, inl, inr, ok,
  refl, ◌↔◌, ◌∷◌, ◌≡◌, ◌≢◌, ◌⊎◌,
}
use veranatest.Registry.Types.{GenesisState, Validator, validate_params}
use veranatest.Registry.Genesis.{check_indices, contains, validate_genesis}

-- No index stands twice.
abbrev pub DistinctIndices : List Validator → Type 0
DistinctIndices [] = Unit
DistinctIndices (v ∷ rest) = All (λ (w : Validator). w.index ≢ v.index) rest × DistinctIndices rest

-- The index is none of those seen.
abbrev IsNew : List Bytes → Validator → Type 0
IsNew seen v = contains seen v.index ≡ false

not_seen :
    (seen : List Bytes) (index : Bytes) (w : Validator)
    → IsNew (index ∷ seen) w
    → (IsNew seen w) × (w.index ≢ index)
unfolding contains
not_seen seen index w h = (ground arith, λ e. ground (arith, bytes_eq_iff index w.index))

now_seen :
    (seen : List Bytes) (index : Bytes) (w : Validator)
    → IsNew seen w
    → w.index ≢ index
    → IsNew (index ∷ seen) w
unfolding contains
now_seen seen index w h n = ground (arith, bytes_eq_iff index w.index)

check_ok :
    (seen : List Bytes) (l : List Validator)
    → check_indices seen l ≡ ok tt
    → All (IsNew seen) l × DistinctIndices l
unfolding check_indices
check_ok seen [] h = (tt, tt)
check_ok seen (v ∷ rest) h = elim (Bool-cases (contains seen v.index)) [
  | inl old ↦ ground arith
  | inr new ↦
      let (news, distinct) = check_ok (v.index ∷ seen) rest (ground arith) in
      (
        (new, All-map _ _ rest (λ w n. (not_seen seen v.index w n).0) news),
        (All-map _ _ rest (λ w n. (not_seen seen v.index w n).1) news, distinct),
      )
]

both-IsNew :
    (seen : List Bytes) (index : Bytes) (l : List Validator)
    → All (IsNew seen) l
    → All (λ (w : Validator). w.index ≢ index) l
    → All (IsNew (index ∷ seen)) l
both-IsNew seen index [] h g = tt
both-IsNew seen index (w ∷ l) h g = (now_seen seen index w h.0 g.0, both-IsNew seen index l h.1 g.1)

check_passes :
    (seen : List Bytes) (l : List Validator)
    → All (IsNew seen) l
    → DistinctIndices l
    → check_indices seen l ≡ ok tt
unfolding check_indices
check_passes seen [] h d = refl
check_passes seen (v ∷ rest) h d =
    rw h.0 (check_passes (v.index ∷ seen) rest (both-IsNew seen v.index rest h.1 d.0) d.1)

check_cases :
    (seen : List Bytes) (l : List Validator)
    → (check_indices seen l ≡ ok tt) ⊎ (check_indices seen l ≡ err Error.duplicated_index)
unfolding check_indices
check_cases seen [] = inl refl
check_cases seen (v ∷ rest) = ground (arith, check_cases (v.index ∷ seen) rest)

All-IsNew : (l : List Validator) → All (IsNew []) l
unfolding contains
All-IsNew [] = tt
All-IsNew (v ∷ l) = (refl, All-IsNew l)

-- A genesis state is valid exactly when no index stands twice in it, and is otherwise refused for a
-- duplicated index.
pub validate_genesis_iff :
    (gs : GenesisState)
    → ((validate_genesis gs ≡ ok tt) ↔ DistinctIndices gs.validator_map)
      × ((validate_genesis gs ≡ ok tt) ⊎ (validate_genesis gs ≡ err Error.duplicated_index))
unfolding validate_genesis
validate_genesis_iff gs = (
  (
    (λ h. elim (check_cases [] gs.validator_map) [
      | inl e ↦ (check_ok [] gs.validator_map e).1
      | inr e ↦ unfold validate_genesis in ground arith
    ]),
    (λ d.
        rw (check_passes [] gs.validator_map (All-IsNew gs.validator_map) d, validate_genesis)
          (unfold validate_params in refl)),
  ),
  elim (check_cases [] gs.validator_map) [
    | inl e ↦ inl (rw (e, validate_genesis) (unfold validate_params in refl))
    | inr e ↦ inr (rw (e, validate_genesis))
  ],
)
