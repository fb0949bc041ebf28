-- ===== src/Export/Validators.antt =====
-- The loop of app/export.go over the validators: what it leaves at each address.
use veranatest.Export.{applies, is_allowed, reset_record, reset_validator, reset_validators}
use veranatest.Export.Resets.{IsReset, reset_jailed_iff}
use veranatest.Export.Rules.{Ensures-must_gets, Ensures-must_lift, must_ok}
use veranatest.Prelude.{
  Bool, Bool-cases, Bytes, Ensures, Ensures-bind, List, Outcome, [], ap, ap₂, arith, bytes_eq,
  bytes_eq_refl, bytes_eq→eq, false, if◌then◌else◌, inl, inr, not, ok, ok_injective, pure, refl,
  subst, sym, true, ◌&&◌, ◌||◌, ◌∙◌, ◌∷◌, ◌≡◌,
}
use veranatest.Sdk.Staking.{Keepers, StakingValidator}

module _ (k : Keepers) where
  -- The record at each address has the operator's address that the address stands for.
  pub record IsKeyed (s : k.Stores) : Type 0 where
    pub at :
        (a : Bytes) (v : StakingValidator k.Rest)
        → k.get_validator s a ≡ ok v
        → k.staking_codec.string_to_bytes v.operator_address ≡ ok a

  -- The record at `a` was there before, and is what the loop stores.
  pub record ResetAt (allowed : List Bytes) (a : Bytes) (s t : k.Stores) : Type 0 where
    pub before : StakingValidator k.Rest
    pub val_addr : Bytes
    pub was : k.get_validator s a ≡ ok before
    pub named : k.staking_codec.bytes_to_string a ≡ ok val_addr
    pub is_now : k.get_validator t a ≡ ok (reset_record k allowed val_addr before)

  set_after :
      (allowed : List Bytes) (a : Bytes) (s t : k.Stores) (v : StakingValidator k.Rest) (n : Bytes)
      → IsKeyed s
      → k.get_validator s a ≡ ok v
      → k.set_validator (reset_record k allowed n v) s ≡ (ok tt, t)
      → (b : Bytes)
      → k.get_validator t b
        ≡ (if bytes_eq a b then ok (reset_record k allowed n v) else k.get_validator s b)
  unfolding reset_record
  set_after allowed a s t v n w g h = k.set_validator_ok _ s t h a (w.at a v g)

  keyed-set :
      (allowed : List Bytes) (a : Bytes) (s t : k.Stores) (v : StakingValidator k.Rest) (n : Bytes)
      → IsKeyed s
      → k.get_validator s a ≡ ok v
      → ((b : Bytes)
          → k.get_validator t b
            ≡ (if bytes_eq a b then ok (reset_record k allowed n v) else k.get_validator s b))
      → (b : Bytes) (x : StakingValidator k.Rest) → k.get_validator t b ≡ ok x
      → k.staking_codec.string_to_bytes x.operator_address ≡ ok b
  unfolding reset_record
  keyed-set allowed a s t v n w g set b x q = elim (Bool-cases (bytes_eq a b)) [
    | inl e ↦
        let same : reset_record k allowed n v ≡ x = ok_injective (rw (set b, e) at q) in
        sym (
          ap (λ (y : StakingValidator k.Rest). k.staking_codec.string_to_bytes y.operator_address)
            same)
        ∙ (w.at a v g ∙ ap ok (bytes_eq→eq a b e))
    | inr e ↦ w.at b x (rw (set b, e) at q)
  ]

  step_Ensures :
      (allowed : List Bytes) (a : Bytes) (s : k.Stores)
      → IsKeyed s
      → Ensures (reset_validator k allowed a) s λ u t.
        IsKeyed t
        × ResetAt allowed a s t
        × ((b : Bytes) → bytes_eq a b ≡ false → k.get_validator t b ≡ k.get_validator s b)
  unfolding reset_validator
  step_Ensures allowed a s w = Ensures-must_gets _ _ λ v g. Ensures-must_lift _ _ λ n named.
      record {
        at = λ u t h.
            let set = set_after allowed a s t v n w g (must_ok _ s t tt h) in
            (
              record { at = λ b x q. keyed-set allowed a s t v n w g set b x q },
              record {
                before = v;
                val_addr = n;
                was = g;
                named = named;
                is_now = rw (set a, bytes_eq_refl a) refl;
              },
              λ b e. rw (set b, e) refl,
            );
      }

  -- The address of some key of the list.
  abbrev pub among : List Bytes → Bytes → Bool
  among [] b = false
  among (key ∷ rest) b = bytes_eq (k.address_from_validators_key key) b || among rest b

  reset_twice :
      (allowed : List Bytes) (n : Bytes) (v : StakingValidator k.Rest)
      → reset_record k allowed n (reset_record k allowed n v) ≡ reset_record k allowed n v
  unfolding reset_record
  reset_twice allowed n v = elim (Bool-cases (applies allowed && not (is_allowed allowed n))) [
    | inl e ↦ rw (e) refl
    | inr e ↦ rw (e) refl
  ]

  -- Two rounds at one address, and a round that leaves the address alone.
  again :
      (allowed : List Bytes) (a : Bytes) (s s1 t : k.Stores)
      → ResetAt allowed a s s1
      → ResetAt allowed a s1 t
      → ResetAt allowed a s t
  again allowed a s s1 t f g = record {
    before = f.before;
    val_addr = f.val_addr;
    was = f.was;
    named = f.named;
    is_now =
        let names : g.val_addr ≡ f.val_addr = ok_injective (sym g.named ∙ f.named) in
        let records : g.before ≡ reset_record k allowed f.val_addr f.before =
          ok_injective (sym g.was ∙ f.is_now) in
        g.is_now ∙ ap ok (ap₂ (reset_record k allowed) names records ∙ reset_twice allowed _ _);
  }

  chain :
      (allowed : List Bytes) (a b : Bytes) (s s1 t : k.Stores) (m : Bool)
      → ResetAt allowed a s s1
      → (bytes_eq a b ≡ false → k.get_validator s1 b ≡ k.get_validator s b)
      → (m ≡ true → ResetAt allowed b s1 t)
        × (m ≡ false → k.get_validator t b ≡ k.get_validator s1 b)
      → (bytes_eq a b || m ≡ true → ResetAt allowed b s t)
        × (bytes_eq a b || m ≡ false → k.get_validator t b ≡ k.get_validator s b)
  chain allowed a b s s1 t m first others (later, kept) = elim (Bool-cases (bytes_eq a b)) [
    | inl e ↦
        let here : ResetAt allowed b s s1 =
          subst (λ x. ResetAt allowed x s s1) (bytes_eq→eq a b e) first in
        (
          (λ h. elim (Bool-cases m) [
            | inl q ↦ again allowed b s s1 t here (later q)
            | inr q ↦ record {
              before = here.before;
              val_addr = here.val_addr;
              was = here.was;
              named = here.named;
              is_now = kept q ∙ here.is_now;
            }
          ]),
          λ h. ground (arith, e),
        )
    | inr e ↦ (
      (λ h.
          let r = later (rw (e) at h) in
          record {
            before = r.before;
            val_addr = r.val_addr;
            was = sym (others e) ∙ r.was;
            named = r.named;
            is_now = r.is_now;
          }),
      λ h. kept (rw (e) at h) ∙ others e,
    )
  ]

  reset_validators_Ensures :
      (allowed keys : List Bytes) (s : k.Stores)
      → IsKeyed s
      → Ensures (reset_validators k allowed keys) s λ u t.
        (b : Bytes)
        → (among keys b ≡ true → ResetAt allowed b s t)
          × (among keys b ≡ false → k.get_validator t b ≡ k.get_validator s b)
  unfolding reset_validators pure
  reset_validators_Ensures allowed [] s w = record {
    at = λ u t h b. (
      (λ m. cc),
      (λ m.
          ap (λ x. k.get_validator x b) (sym (ap (λ (p : Outcome (Unit {0}) × k.Stores). p.1) h))),
    );
  }
  reset_validators_Ensures allowed (key ∷ rest) s w = Ensures-bind _ _ λ u s1 h1. record {
    at = λ x t h b.
        let first = (step_Ensures allowed (k.address_from_validators_key key) s w).at u s1 h1 in
        let later = (reset_validators_Ensures allowed rest s1 first.0).at x t h b in
        chain allowed (k.address_from_validators_key key) b s s1 t (among rest b) first.1
          (first.2 b) later;
  }

  ResetAt-IsReset :
      (allowed : List Bytes) (a : Bytes) (s t : k.Stores)
      → ResetAt allowed a s t
      → IsReset k allowed a s t
  unfolding reset_record
  ResetAt-IsReset allowed a s t r = record {
    before = r.before;
    after = reset_record k allowed r.val_addr r.before;
    val_addr = r.val_addr;
    was = r.was;
    is_now = r.is_now;
    named = r.named;
    at_zero = refl;
    same_operator = refl;
    same_rest = refl;
    jailed_iff = reset_jailed_iff k allowed r.val_addr r.before;
  }

  -- A run of the loop that does not panic leaves at the address of every key the record that was
  -- there, with the unbonding height 0 and all else the same but that it is jailed: it is so where it
  -- was before, or where the list of allowed addresses is not empty and does not have the validator's.
  -- It leaves the records at other addresses. Every record stands at its operator's address at the
  -- start.
  pub reset_validators_ok :
      (allowed keys : List Bytes) (s t : k.Stores)
      → IsKeyed s
      → reset_validators k allowed keys s ≡ (ok tt, t)
      → (b : Bytes)
      → (among keys b ≡ true → IsReset k allowed b s t)
        × (among keys b ≡ false → k.get_validator t b ≡ k.get_validator s b)
  reset_validators_ok allowed keys s t w h b =
      let r = (reset_validators_Ensures allowed keys s w).at tt t h b in
      ((λ q. ResetAt-IsReset allowed b s t (r.0 q)), r.1)
