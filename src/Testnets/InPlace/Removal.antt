-- ===== src/Testnets/InPlace/Removal.antt =====
-- What the removal of all validators leaves in the store of x/staking.
use veranatest.Export.Rules.{Ensures-must_gets}
use veranatest.Testnets.InPlace.{delete_keys, keys_under, remove_validators}
use veranatest.Prelude.{
  Bool, Bool-cases, Bytes, Ensures, Ensures-bind, Ensures-gets, List, Listed, Listed-has_member,
  Option, Outcome, [], ap, arith, has_member, has_member-Listed, has_prefix, if◌then◌else◌, inl,
  inr, none, ok, ok_injective, or_right, refl, some, subst, sym, true, ◌||◌, ◌↔◌, ◌∷◌, ◌≡◌, ◌≢◌,
}
use veranatest.Sdk.Testnet.{TestnetKeepers}

module _ (k : TestnetKeepers) where
  -- Deleting keys empties them, and leaves the others.
  delete_keys_lem :
      (keys : List Bytes) (s t : k.Stores)
      → delete_keys k keys s ≡ (ok tt, t)
      → (j : Bytes) → k.value t j ≡ (if has_member keys j then none else k.value s j)
  unfolding delete_keys
  delete_keys_lem [] s t h j = ap (λ (r : Outcome (Unit {0}) × k.Stores). k.value r.1 j) (sym h)
  delete_keys_lem (key ∷ rest) s t h j =
      ground (arith, delete_keys_lem rest (k.delete key s) t h j, k.delete_lem key s j)

  -- The values at the keys that `gone` takes are gone, and the others stay.
  abbrev pub Without : (Bytes → Bool) → k.Stores → k.Stores → Type 0
  Without gone s t = (j : Bytes) → k.value t j ≡ (if gone j then none else k.value s j)

  cleared :
      (p : Bytes) (keys : List Bytes) (s t : k.Stores)
      → ((j : Bytes) → Listed j keys ↔ ((has_prefix p j ≡ true) × (k.value s j ≢ none)))
      → delete_keys k keys s ≡ (ok tt, t)
      → Without (has_prefix p) s t
  cleared p keys s t listed h j = go (k.value s j) refl (delete_keys_lem keys s t h j)
    where
      go :
          (held : Option Bytes)
          → k.value s j ≡ held
          → k.value t j ≡ (if has_member keys j then none else k.value s j)
          → k.value t j ≡ (if has_prefix p j then none else k.value s j)
      go none e q = ground (arith, e, q)
      go (some v) e q = elim (Bool-cases (has_member keys j)) [
        | inl m ↦
            let both = (listed j).0 (has_member-Listed keys j m) in ground (arith, q, m, both.0)
        | inr m ↦ elim (Bool-cases (has_prefix p j)) [
          | inl y ↦
              let there = Listed-has_member keys j ((listed j).1 (y, λ n. cc)) in
              ground (arith, there)
          | inr n ↦ ground (arith, q, m, n)
        ]
      ]

  cleared_under :
      (p : Bytes) (keys : List Bytes) (s t : k.Stores)
      → ok (keys_under k p s) ≡ ok keys
      → delete_keys k keys s ≡ (ok tt, t)
      → Without (has_prefix p) s t
  unfolding keys_under
  cleared_under p keys s t e h =
      cleared p keys s t
        (subst (λ l. (j : Bytes) → Listed j l ↔ ((has_prefix p j ≡ true) × (k.value s j ≢ none)))
          (ok_injective e) (k.iterator_lem p s))
        h

  both :
      (f g : Bytes → Bool) (s t u : k.Stores)
      → Without f s t
      → Without g t u
      → Without (λ j. f j || g j) s u
  both f g s t u h h2 j = elim (Bool-cases (g j)) [
    | inl e ↦ ground (arith, e, h2 j, or_right (f j) e)
    | inr e ↦ ground (arith, e, h2 j, h j)
  ]

  -- The key belongs to the power store, the last validators, the validators or the unbonding queue.
  abbrev pub is_validator_key : Bytes → Bool
  is_validator_key j =
      has_prefix k.power_index_key j
      || (has_prefix k.last_power_key j
          || (has_prefix k.validators_key j || has_prefix k.validator_queue_key j))

  remove_Ensures :
      (s : k.Stores) → Ensures (remove_validators k) s λ u t. Without is_validator_key s t
  unfolding remove_validators
  remove_Ensures s = Ensures-must_gets _ _ λ power e1. Ensures-bind _ _ λ u1 s1 d1.
      Ensures-must_gets _ _ λ last e2. Ensures-bind _ _ λ u2 s2 d2. Ensures-gets _ _ λ keys e3.
        Ensures-bind _ _ λ u3 s3 d3. Ensures-gets _ _ λ queue e4. record {
          at = λ u t d4.
              let c1 = cleared k.power_index_key power s s1 (k.power_iterator_lem s power e1) d1 in
              let c2 = cleared k.last_power_key last s1 s2 (k.last_iterator_lem s1 last e2) d2 in
              let c3 = cleared_under k.validators_key keys s2 s3 e3 d3 in
              let c4 = cleared_under k.validator_queue_key queue s3 t e4 d4 in
              both _ _ s s1 t c1 (both _ _ s1 s2 t c2 (both _ _ s2 s3 t c3 c4));
        }

  -- A run of the removal leaves no value at a key of the power store, of the last validators, of the
  -- validators or of the unbonding queue, and every other value as it was.
  pub remove_validators_ok :
      (s t : k.Stores)
      → remove_validators k s ≡ (ok tt, t)
      → (j : Bytes) → k.value t j ≡ (if is_validator_key j then none else k.value s j)
  remove_validators_ok s t h = (remove_Ensures s).at tt t h
