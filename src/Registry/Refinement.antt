-- ===== src/Registry/Refinement.antt =====
-- What x/validatorregistry promises the checks of transactions: a set of operators that only grows by
-- the accepted messages. Its implementation: the records of the store.
use veranatest.Registry.Onboarding.{onboard-FailsClean}
use veranatest.Registry.Params.{update-FailsClean, update_ok}
use veranatest.Registry.Whitelist.{is_validator_whitelisted-onboard}
use veranatest.Registry.Types.{Keeper, MsgOnboardValidator, MsgUpdateParams, State}
use veranatest.Registry.History.{Call, onboard, run_call, run_calls, update}
use veranatest.Registry.Handlers.{
  is_validator_whitelisted, matches_operator, onboard_validator, update_params,
}
use veranatest.Sdk.Collections.{IsReadable}
use veranatest.Prelude.{
  Bool, Bytes, Exec, FailsClean, List, Outcome, Succeeds, [], ap, bytes_eq, err, false, fun_ext,
  inl, inr, ok, panicked, refl, subst, sym, true, ◌||◌, ◌∙◌, ◌∷◌, ◌≡◌,
}

-- The set of operators, and how a message that was accepted or refused changes it.
abbrev pub Operators : Type 0
Operators = Bytes → Bool

abbrev pub accepts : {A : Type 0} → Outcome A → Bool
accepts (ok a) = true
accepts (err e) = false
accepts panicked = false

unfoldable pub spec_call : Call → Bool → Operators → Operators
spec_call (onboard msg) true o a = bytes_eq msg.operator_address a || o a
spec_call (onboard msg) false o a = o a
spec_call (update req) taken o a = o a

-- The messages in their order, each with its answer.
unfoldable pub spec_calls : List (Call × Bool) → Operators → Operators
unfolding spec_call
spec_calls [] o = o
spec_calls ((c, taken) ∷ rest) o = spec_calls rest (spec_call c taken o)

-- The answers of the module.
unfoldable pub answers : (k : Keeper) → List Call → State k → List (Call × Bool)
answers k [] s = []
answers k (c ∷ cs) s = (c, accepts (run_call k c s).0) ∷ answers k cs (run_call k c s).1

refused_keeps :
    {S A : Type 0} (m : Exec S A) (s t : S) (r : Outcome A)
    → FailsClean m
    → m s ≡ (r, t)
    → accepts r ≡ false
    → t ≡ s
refused_keeps {S} {A} m s t r clean run h = elim (clean.at s) [
  | inl good ↦ absurd (never r h (subst (λ (x : Outcome A × S). Succeeds x.0) run good))
  | inr same ↦ ap (λ (x : Outcome A × S). x.1) (sym run) ∙ same
]
  where
    never : (x : Outcome A) → accepts x ≡ false → Succeeds x → ⊥
    never (ok v) e g = let q : true ≡ false = e in cc
    never (err y) e g = g
    never panicked e g = g

module _ (k : Keeper) (readable : (s : k.validator.Store) → IsReadable k.validator s) where
  -- The operators that the whitelist of a state has.
  abbrev pub operators : State k → Operators
  operators s a = is_validator_whitelisted k s a

  onboard_refines :
      (msg : MsgOnboardValidator) (s t : State k) (r : Outcome (Unit {0})) (a : Bytes)
      → onboard_validator k msg s ≡ (r, t)
      → operators t a ≡ spec_call (onboard msg) (accepts r) (operators s) a
  unfolding spec_call
  onboard_refines msg s t (ok u) a h =
      is_validator_whitelisted-onboard k msg s t a h (readable s.validator) (readable t.validator)
  onboard_refines msg s t (err x) a h =
      ap (λ w. operators w a) (refused_keeps _ s t (err x) (onboard-FailsClean k msg) h refl)
  onboard_refines msg s t panicked a h =
      ap (λ w. operators w a) (refused_keeps _ s t panicked (onboard-FailsClean k msg) h refl)

  update_refines :
      (req : MsgUpdateParams) (s t : State k) (r : Outcome (Unit {0})) (a : Bytes)
      → update_params k req s ≡ (r, t)
      → operators t a ≡ operators s a
  unfolding is_validator_whitelisted
  update_refines req s t (ok u) a h =
      ap (λ v. (k.validator.walk Bool v (matches_operator a) false).0)
        (update_ok k req s t h).same_validators
  update_refines req s t (err x) a h =
      ap (λ w. operators w a) (refused_keeps _ s t (err x) (update-FailsClean k req) h refl)
  update_refines req s t panicked a h =
      ap (λ w. operators w a) (refused_keeps _ s t panicked (update-FailsClean k req) h refl)

  call_refines :
      (c : Call) (s : State k) (a : Bytes)
      → operators (run_call k c s).1 a ≡ spec_call c (accepts (run_call k c s).0) (operators s) a
  unfolding run_call spec_call
  call_refines (onboard msg) s a =
      onboard_refines msg s (onboard_validator k msg s).1 (onboard_validator k msg s).0 a refl
  call_refines (update req) s a =
      update_refines req s (update_params k req s).1 (update_params k req s).0 a refl

  spec_calls_ext :
      (l : List (Call × Bool)) (o p : Operators)
      → ((a : Bytes) → o a ≡ p a)
      → (a : Bytes) → spec_calls l o a ≡ spec_calls l p a
  unfolding spec_calls
  spec_calls_ext l o p h a = ap (λ q. spec_calls l q a) (fun_ext h)

  -- After any sequence of messages the whitelist has the operators that the set has after the same
  -- messages with the same answers, where the registry can be read in full.
  pub run_calls_refines :
      (cs : List Call) (s : State k) (a : Bytes)
      → operators (run_calls k cs s) a ≡ spec_calls (answers k cs s) (operators s) a
  unfolding run_calls spec_calls answers
  run_calls_refines [] s a = refl
  run_calls_refines (c ∷ cs) s a =
      run_calls_refines cs (run_call k c s).1 a
      ∙ spec_calls_ext (answers k cs (run_call k c s).1) _ _ (call_refines c s) a
