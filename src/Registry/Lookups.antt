-- ===== src/Registry/Lookups.antt =====
-- What the query for a validator answers: keeper/query_validator.go beside the handler of messages.
use veranatest.Registry.Handlers.{new_validator, onboard_validator}
use veranatest.Registry.Onboarding.{onboard_ok}
use veranatest.Registry.Queries.{get_validator, query_error}
use veranatest.Registry.Whitelist.{lookup-onboard}
use veranatest.Prelude.{
  Bytes, Error, Outcome, ap, arith, bytes_eq_refl, err, inl, inr, malformed, ok, panicked, refl,
  some, ◌∙◌, ◌≡◌, ◌⊎◌,
}
use veranatest.Registry.Types.{Keeper, MsgOnboardValidator, State, Validator}

query_error_cases : (e : Error) → (e ≡ Error.not_found) ⊎ (query_error e ≡ Error.internal)
unfolding query_error
query_error_cases Error.not_found = inl refl
query_error_cases Error.invalid_signer = inr refl
query_error_cases (Error.invalid_validator i) = inr refl
query_error_cases (Error.invalid_request r) = inr refl
query_error_cases Error.unauthorized = inr refl
query_error_cases Error.invalid_argument = inr refl
query_error_cases Error.internal = inr refl
query_error_cases Error.duplicated_index = inr refl
query_error_cases Error.missing_dependency = inr refl
query_error_cases Error.vesting_times = inr refl
query_error_cases (malformed m) = inr refl
query_error_cases Error.missing_home = inr refl
query_error_cases Error.wrong_options = inr refl
query_error_cases Error.overflow = inr refl
query_error_cases Error.unexpected_eof = inr refl
query_error_cases (Error.foreign n) = inr refl

-- The answer to a query where the store holds a record at the index.
answer-stored :
    (k : Keeper) (s : State k) (index : Bytes) (v : Validator)
    → k.validator.lookup s.validator index ≡ some v
    → (get_validator k s (some index) ≡ ok v)
      ⊎ ((get_validator k s (some index) ≡ err Error.internal)
          ⊎ (get_validator k s (some index) ≡ panicked))
unfolding get_validator
answer-stored k s index v h = go (k.validator.get s.validator index) refl
  where
    go :
        (r : Outcome Validator)
        → k.validator.get s.validator index ≡ r
        → (get_validator k s (some index) ≡ ok v)
          ⊎ ((get_validator k s (some index) ≡ err Error.internal)
              ⊎ (get_validator k s (some index) ≡ panicked))
    go (ok w) q =
        let same = k.validator.get_ok s.validator index w q in
        inl (rw (q, get_validator) (ap ok cc))
    go (err e) q = elim (query_error_cases e) [
      | inl missing ↦
          let gone = k.validator.get_not_found s.validator index (q ∙ ap err missing) in cc
      | inr other ↦ inr (inl (rw (q, get_validator) (ap err other)))
    ]
    go panicked q = inr (inr (rw (q, get_validator)))

-- After an accepted message, the query for its index answers with its record, unless the store
-- fails; it never answers that there is none.
pub get_validator-onboard :
    (k : Keeper) (msg : MsgOnboardValidator) (s t : State k)
    → onboard_validator k msg s ≡ (ok tt, t)
    → (get_validator k t (some msg.index) ≡ ok (new_validator msg))
      ⊎ ((get_validator k t (some msg.index) ≡ err Error.internal)
          ⊎ (get_validator k t (some msg.index) ≡ panicked))
get_validator-onboard k msg s t h =
    let (a, o) = onboard_ok k msg s t h in
    answer-stored k t msg.index (new_validator msg)
      (ground (arith, lookup-onboard k msg s t o msg.index, bytes_eq_refl msg.index))
