-- ===== src/Registry/Onboarding.antt =====
-- What `OnboardValidator` accepts and what it changes.
use veranatest.Prelude.{
  Bool, Bytes, Ensures, Ensures-gets, Ensures-guard, Ensures-lift, Error, Exec, FailsClean,
  FailsClean-gets, FailsClean-guard, FailsClean-lift, Outcome, Succeeds, [], ap, arith, err, false,
  gets, guard, inl, inr, is_empty, is_empty_ne, lift, none, not, ok, or_error, panicked, refl, true,
  ◌++◌, ◌>>=◌, ◌>>◌, ◌∙◌, ◌∷◌, ◌≡◌, ◌≢◌, ◌⊎◌,
}
use veranatest.Registry.Types.{Keeper, MsgOnboardValidator, State}
use veranatest.Registry.Handlers.{
  emit_event, has_validator, new_validator, onboard_validator, onboarded_event, set_validator,
}

-- What the handler asks of a message in a state.
pub record Acceptable (k : Keeper) (msg : MsgOnboardValidator) (s : State k) : Type 0 where
  pub by_authority : k.address_codec.string_to_bytes msg.creator ≡ ok k.authority
  pub has_index : msg.index ≢ []
  pub has_member_id : msg.member_id ≢ []
  pub has_operator_address : msg.operator_address ≢ []
  pub has_status : msg.status ≢ []
  pub is_new : k.validator.lookup s.validator msg.index ≡ none
  pub operator_address_parses :
      (a : Bytes) × (k.address_codec.val_address_from_bech32 msg.operator_address ≡ ok a)

-- The state after a message is accepted.
abbrev pub onboarded :
    (k : Keeper) (msg : MsgOnboardValidator) (s : State k) → k.validator.Store → State k
onboarded k msg s v = record s { validator = v; events = s.events ++ (onboarded_event msg ∷ []) }

pub is_empty_false : (b : Bytes) → not (is_empty b) ≡ true → b ≢ []
is_empty_false [] h = cc
is_empty_false (x ∷ b) h = λ e. cc

-- What an accepted message leaves: its record in the store, its event, and nothing else changed.
abbrev pub Onboards : (k : Keeper) → MsgOnboardValidator → State k → State k → Type 0
Onboards k msg s t =
    (v : k.validator.Store) × (k.validator.set s.validator msg.index (new_validator msg) ≡ ok v)
    × (t ≡ onboarded k msg s v)

store_and_emit :
    (k : Keeper) (msg : MsgOnboardValidator) (s : State k)
    → Ensures
        (set_validator k msg.index (new_validator msg) >> emit_event k (onboarded_event msg))
        s
        (λ u t. Onboards k msg s t)
unfolding set_validator emit_event ◌>>=◌
store_and_emit k msg s = record {
  at = λ u t h. go (k.validator.set s.validator msg.index (new_validator msg)) refl u t h;
}
  where
    go :
        (r : Outcome k.validator.Store)
        → k.validator.set s.validator msg.index (new_validator msg) ≡ r
        → (u : Unit {0}) (t : State k)
        → (set_validator k msg.index (new_validator msg) >> emit_event k (onboarded_event msg)) s
          ≡ (ok u, t)
        → Onboards k msg s t
    go (ok v) e u t h = (v, e, ground arith)
    go (err x) e u t h = ground arith
    go panicked e u t h = ground arith

is_new_lem :
    (k : Keeper) (msg : MsgOnboardValidator) (s : State k) (b : Bool)
    → has_validator k msg.index s ≡ ok b
    → not b ≡ true
    → k.validator.lookup s.validator msg.index ≡ none
unfolding has_validator
is_new_lem k msg s true h g = cc
is_new_lem k msg s false h g = k.validator.has_false s.validator msg.index h

bad_address_lem : (r : Outcome Bytes) (e : Error) (a : Bytes) → or_error e r ≡ ok a → r ≡ ok a
bad_address_lem (ok x) e a h = h
bad_address_lem (err x) e a h = cc
bad_address_lem panicked e a h = cc

onboard_Ensures :
    (k : Keeper) (msg : MsgOnboardValidator) (s : State k)
    → Ensures (onboard_validator k msg) s (λ u t. Acceptable k msg s × Onboards k msg s t)
unfolding onboard_validator
onboard_Ensures k msg s = Ensures-lift _ _ λ creator decoded. Ensures-guard _ _ _ λ authorised.
    Ensures-guard _ _ _ λ index. Ensures-guard _ _ _ λ member. Ensures-guard _ _ _ λ operator.
      Ensures-guard _ _ _ λ status. Ensures-gets _ _ λ exists found. Ensures-guard _ _ _ λ fresh.
        Ensures-lift _ _ λ address parsed. record {
          at = λ u t h. (
            record {
              by_authority =
                  decoded ∙ ap ok ((k.address_codec.equals_iff creator k.authority).0 authorised);
              has_index = is_empty_false msg.index index;
              has_member_id = is_empty_false msg.member_id member;
              has_operator_address = is_empty_false msg.operator_address operator;
              has_status = is_empty_false msg.status status;
              is_new = is_new_lem k msg s exists found fresh;
              operator_address_parses = (address, bad_address_lem _ _ _ parsed);
            },
            (store_and_emit k msg s).at u t h,
          );
        }

-- An accepted message met every condition, and its record was stored and announced.
pub onboard_ok :
    (k : Keeper) (msg : MsgOnboardValidator) (s t : State k)
    → onboard_validator k msg s ≡ (ok tt, t)
    → Acceptable k msg s × Onboards k msg s t
onboard_ok k msg s t h = (onboard_Ensures k msg s).at tt t h

store_FailsClean :
    (k : Keeper) (msg : MsgOnboardValidator)
    → FailsClean
        (set_validator k msg.index (new_validator msg) >> emit_event k (onboarded_event msg))
unfolding set_validator emit_event ◌>>=◌
store_FailsClean k msg = record {
  at = λ s. go s (k.validator.set s.validator msg.index (new_validator msg)) refl;
}
  where
    go :
        (s : State k) (r : Outcome k.validator.Store)
        → k.validator.set s.validator msg.index (new_validator msg) ≡ r
        → let m : Exec (State k) (Unit {0}) =
            set_validator k msg.index (new_validator msg) >> emit_event k (onboarded_event msg) in
          Succeeds (m s).0 ⊎ ((m s).1 ≡ s)
    go s (ok v) e = inl (rw (e, Succeeds, set_validator) tt)
    go s (err x) e = inr (rw (e, set_validator))
    go s panicked e = inr (rw (e, set_validator))

-- A message that is not accepted, for whatever reason, changes nothing.
pub onboard-FailsClean :
    (k : Keeper) (msg : MsgOnboardValidator) → FailsClean (onboard_validator k msg)
unfolding onboard_validator
onboard-FailsClean k msg = FailsClean-lift _ _ λ creator. FailsClean-guard _ _ _ (
    FailsClean-guard _ _ _ (
      FailsClean-guard _ _ _ (
        FailsClean-guard _ _ _ (
          FailsClean-guard _ _ _ (
            FailsClean-gets _ _ λ exists.
              FailsClean-guard _ _ _ (FailsClean-lift _ _ λ address. store_FailsClean k msg))))))

store_step :
    (k : Keeper) (msg : MsgOnboardValidator) (s : State k) (v : k.validator.Store)
    → k.validator.set s.validator msg.index (new_validator msg) ≡ ok v
    → (set_validator k msg.index (new_validator msg) >> emit_event k (onboarded_event msg)) s
      ≡ (ok tt, onboarded k msg s v)
unfolding set_validator emit_event ◌>>=◌
store_step k msg s v g = rw (g, set_validator)

-- A message that meets every condition is accepted, where the store answers.
pub onboard_accepts :
    (k : Keeper) (msg : MsgOnboardValidator) (s : State k) (v : k.validator.Store)
    → Acceptable k msg s
    → k.validator.has s.validator msg.index ≡ ok false
    → k.validator.set s.validator msg.index (new_validator msg) ≡ ok v
    → onboard_validator k msg s ≡ (ok tt, onboarded k msg s v)
unfolding onboard_validator ◌>>=◌ lift guard gets
onboard_accepts k msg s v a h g =
    rw
      (
        a.by_authority,
        (k.address_codec.equals_iff k.authority k.authority).1 refl,
        is_empty_ne _ a.has_index,
        is_empty_ne _ a.has_member_id,
        is_empty_ne _ a.has_operator_address,
        is_empty_ne _ a.has_status,
        h,
        a.operator_address_parses.1,
      )
      (store_step k msg s v g)
