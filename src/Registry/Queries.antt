-- ===== src/Registry/Queries.antt =====
-- The queries of x/validatorregistry: keeper/query_validator.go and keeper/query_params.go.
-- `none` is a nil request.
use veranatest.Sdk.Collections.{Pages}
use veranatest.Prelude.{Bytes, Error, List, Option, Outcome, err, none, ok, panicked, some}
use veranatest.Registry.Types.{Keeper, Params, State, Validator, empty_params}

-- `if errors.Is(err, collections.ErrNotFound) { return not_found }; return internal`
unfoldable pub query_error : Error → Error
query_error Error.not_found = Error.not_found
query_error e = Error.internal

unfoldable pub get_validator : (k : Keeper) → State k → Option Bytes → Outcome Validator
unfolding query_error
get_validator k s none = err Error.invalid_argument
get_validator k s (some index) = elim (k.validator.get s.validator index) [
  | ok v ↦ ok v
  | err e ↦ err (query_error e)
  | panicked ↦ panicked
]

-- `ListValidator`
unfoldable pub list_validator :
    (k : Keeper) (pages : Pages k.validator)
    → State k
    → Option pages.PageRequest
    → Outcome (List Validator × pages.PageResponse)
list_validator k pages s none = err Error.invalid_argument
list_validator k pages s (some pagination) =
    elim (pages.collection_paginate s.validator pagination (λ key value. ok value)) [
      | ok page ↦ ok page
      | err e ↦ err Error.internal
      | panicked ↦ panicked
    ]

-- A missing value is answered by the zero `Params`.
unfoldable pub params_or_error : Error → Outcome Params
params_or_error Error.not_found = ok empty_params
params_or_error e = err Error.internal

unfoldable pub query_params : (k : Keeper) → State k → Option (Unit {0}) → Outcome Params
unfolding params_or_error
query_params k s none = err Error.invalid_argument
query_params k s (some req) = elim (k.params.get s.params) [
  | ok p ↦ ok p
  | err e ↦ params_or_error e
  | panicked ↦ panicked
]
