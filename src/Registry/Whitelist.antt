-- ===== src/Registry/Whitelist.antt =====
-- `IsValidatorWhitelisted` (keeper/keeper.go) against the content of the registry, and what
-- onboarding does to the whitelist.
use veranatest.Prelude.{
  Bool, Bool-cases, Bool-ext, Bytes, List, Listed, [], ap, arith, bytes_eq, bytes_eq_iff,
  bytes_eq_refl, bytes_eq→eq, false, if◌then◌else◌, inl, inr, ok, or_cases, or_right, refl, some,
  subst, sym, true, ◌||◌, ◌∙◌, ◌∷◌, ◌≡◌, ◌⊎◌,
}
use veranatest.Sdk.Collections.{IsReadable, visit}
use veranatest.Registry.Types.{Keeper, MsgOnboardValidator, State, Validator}
use veranatest.Registry.Handlers.{
  is_validator_whitelisted, matches_operator, new_validator, onboard_validator,
}
use veranatest.Registry.Onboarding.{Onboards, onboard_ok}

-- The address is the operator address of some record of the registry.
abbrev pub Whitelisted : (k : Keeper) → State k → Bytes → Type 0
Whitelisted k s a =
    (key : Bytes) × (v : Validator) × (k.validator.lookup s.validator key ≡ some v)
    × (v.operator_address ≡ a)

visit-true : (a : Bytes) (l : List (Bytes × Validator)) → visit (matches_operator a) l true ≡ true
unfolding matches_operator
visit-true a [] = refl
visit-true a ((key, v) ∷ l) = ground (arith, visit-true a l)

visit_found :
    (a : Bytes) (l : List (Bytes × Validator))
    → visit (matches_operator a) l false ≡ true
    → (key : Bytes) × (v : Validator) × Listed (key, v) l × (v.operator_address ≡ a)
unfolding matches_operator
visit_found a [] h = cc
visit_found a ((key, v) ∷ l) h = elim (Bool-cases (bytes_eq v.operator_address a)) [
  | inl same ↦ (key, v, inl refl, bytes_eq→eq _ _ same)
  | inr other ↦
      let (key', v', listed, same) = visit_found a l (ground arith) in (key', v', inr listed, same)
]

visit_finds :
    (a : Bytes) (l : List (Bytes × Validator)) (key : Bytes) (v : Validator)
    → Listed (key, v) l
    → v.operator_address ≡ a
    → visit (matches_operator a) l false ≡ true
unfolding matches_operator
visit_finds a [] key v h e = absurd h
visit_finds a ((key', v') ∷ l) key v (inl p) e = ground (arith, p, e, bytes_eq_refl a)
visit_finds a ((key', v') ∷ l) key v (inr h) e = ground (arith, visit_finds a l key v h e)

-- Only addresses of stored records are whitelisted.
pub Whitelisted-sound :
    (k : Keeper) (s : State k) (a : Bytes)
    → is_validator_whitelisted k s a ≡ true
    → Whitelisted k s a
unfolding is_validator_whitelisted
Whitelisted-sound k s a h =
    let (key, v, listed, same) =
      visit_found a (k.validator.reached s.validator)
        (sym (k.validator.walk_visits Bool s.validator (matches_operator a) false) ∙ h) in
    (key, v, k.validator.reached_sound s.validator key v listed, same)

-- The address of every stored record is whitelisted, where the whole registry can be read.
pub Whitelisted-complete :
    (k : Keeper) (s : State k) (a : Bytes)
    → IsReadable k.validator s.validator
    → Whitelisted k s a
    → is_validator_whitelisted k s a ≡ true
unfolding is_validator_whitelisted
Whitelisted-complete k s a readable (key, v, found, same) =
    k.validator.walk_visits Bool s.validator (matches_operator a) false
    ∙ visit_finds a (k.validator.reached s.validator) key v (readable key v found) same

-- What a store holds after an accepted message.
pub lookup-onboard :
    (k : Keeper) (msg : MsgOnboardValidator) (s t : State k)
    → Onboards k msg s t
    → (key : Bytes)
    → k.validator.lookup t.validator key ≡ (
        if bytes_eq msg.index key
        then some (new_validator msg)
        else k.validator.lookup s.validator key)
lookup-onboard k msg s t (v, set, e) key =
    ap (λ (u : State k). k.validator.lookup u.validator key) e
    ∙ k.validator.set_ok s.validator v msg.index (new_validator msg) set key

-- A record that is in the store stays as it is when a message is accepted.
pub onboard_keeps :
    (k : Keeper) (msg : MsgOnboardValidator) (s t : State k) (key : Bytes) (v : Validator)
    → onboard_validator k msg s ≡ (ok tt, t)
    → k.validator.lookup s.validator key ≡ some v
    → k.validator.lookup t.validator key ≡ some v
onboard_keeps k msg s t key v h found =
    let (a, o) = onboard_ok k msg s t h in
    ground (arith, lookup-onboard k msg s t o key, a.is_new, bytes_eq_iff msg.index key)

Whitelisted-after :
    (k : Keeper) (msg : MsgOnboardValidator) (s t : State k) (a : Bytes)
    → Onboards k msg s t
    → Whitelisted k t a
    → (msg.operator_address ≡ a) ⊎ Whitelisted k s a
Whitelisted-after k msg s t a o (key, v, found, same) = elim (Bool-cases (bytes_eq msg.index key)) [
  | inl e ↦ inl (unfold new_validator in ground (arith, lookup-onboard k msg s t o key))
  | inr e ↦ inr (key, v, ground (arith, lookup-onboard k msg s t o key), same)
]

new-Whitelisted :
    (k : Keeper) (msg : MsgOnboardValidator) (s t : State k)
    → Onboards k msg s t
    → Whitelisted k t msg.operator_address
unfolding new_validator
new-Whitelisted k msg s t o = (
  msg.index,
  new_validator msg,
  ground (arith, lookup-onboard k msg s t o msg.index, bytes_eq_refl msg.index),
  refl,
)

-- An accepted message whitelists the operator address that it names, and no other one besides those
-- that were whitelisted before, where the registry can be read in full before and after it.
pub is_validator_whitelisted-onboard :
    (k : Keeper) (msg : MsgOnboardValidator) (s t : State k) (a : Bytes)
    → onboard_validator k msg s ≡ (ok tt, t)
    → IsReadable k.validator s.validator
    → IsReadable k.validator t.validator
    → is_validator_whitelisted k t a
      ≡ (bytes_eq msg.operator_address a || is_validator_whitelisted k s a)
is_validator_whitelisted-onboard k msg s t a h rs rt = Bool-ext _ _ forth back
  where
    forth :
        is_validator_whitelisted k t a ≡ true
        → bytes_eq msg.operator_address a || is_validator_whitelisted k s a ≡ true
    forth w =
        elim (Whitelisted-after k msg s t a (onboard_ok k msg s t h).1
          (Whitelisted-sound k t a w)) [
            | inl e ↦ rw ((bytes_eq_iff msg.operator_address a).1 e)
            | inr old ↦
                or_right (bytes_eq msg.operator_address a) (Whitelisted-complete k s a rs old)
          ]

    back :
        bytes_eq msg.operator_address a || is_validator_whitelisted k s a ≡ true
        → is_validator_whitelisted k t a ≡ true
    back w = elim (or_cases _ _ w) [
      | inl e ↦
          subst (λ x. is_validator_whitelisted k t x ≡ true) (bytes_eq→eq _ _ e)
            (Whitelisted-complete k t _ rt (new-Whitelisted k msg s t (onboard_ok k msg s t h).1))
      | inr old ↦
          let (key, v, found, same) = Whitelisted-sound k s a old in
          Whitelisted-complete k t a rt (key, v, onboard_keeps k msg s t key v h found, same)
    ]
