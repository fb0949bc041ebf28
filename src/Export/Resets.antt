-- ===== src/Export/Resets.antt =====
-- What the loop of app/export.go over the validators does to a record, without the code's own words.
use veranatest.Export.{applies, is_allowed, reset_record}
use veranatest.Prelude.{
  Bool-cases, Bytes, List, Listed, [], arith, bytes_eq, bytes_eq_refl, bytes_eq→eq, inl, inr, not,
  ok, refl, sym, true, ◌&&◌, ◌↔◌, ◌∷◌, ◌≡◌, ◌≢◌, ◌⊎◌,
}
use veranatest.Prelude.Int.{pos}
use veranatest.Sdk.Staking.{Keepers, StakingValidator}

is_allowed-Listed :
    (allowed : List Bytes) (n : Bytes) → is_allowed allowed n ≡ true → Listed n allowed
unfolding is_allowed
is_allowed-Listed [] n h = absurd (ground arith)
is_allowed-Listed (x ∷ xs) n h = elim (Bool-cases (bytes_eq x n)) [
  | inl e ↦ inl (sym (bytes_eq→eq x n e))
  | inr e ↦ inr (is_allowed-Listed xs n (ground arith))
]

Listed-is_allowed :
    (allowed : List Bytes) (n : Bytes) → Listed n allowed → is_allowed allowed n ≡ true
unfolding is_allowed
Listed-is_allowed [] n h = absurd h
Listed-is_allowed (x ∷ xs) n (inl e) = ground (arith, e, bytes_eq_refl x)
Listed-is_allowed (x ∷ xs) n (inr l) = ground (arith, Listed-is_allowed xs n l)

-- When a validator is jailed, by the list of allowed addresses.
jails_iff :
    (allowed : List Bytes) (n : Bytes)
    → ((allowed ≢ []) × (Listed n allowed → ⊥))
      ↔ (applies allowed && not (is_allowed allowed n) ≡ true)
unfolding applies
jails_iff [] n = ((λ h. absurd (h.0 refl)), λ h. absurd (ground arith))
jails_iff (x ∷ xs) n = (
  (λ h. elim (Bool-cases (is_allowed (x ∷ xs) n)) [
    | inl e ↦ absurd (h.1 (is_allowed-Listed (x ∷ xs) n e))
    | inr e ↦ rw (e) refl
  ]),
  λ h. ((λ e. cc), λ l. let e = Listed-is_allowed (x ∷ xs) n l in absurd (ground arith)),
)

module _ (k : Keepers) where
  -- The record at `a` is the one that was there, but that it stopped at height 0, and that it is jailed
  -- where it was before or where a list of allowed addresses is given that does not have its own.
  pub record IsReset (allowed : List Bytes) (a : Bytes) (s t : k.Stores) : Type 0 where
    pub before : StakingValidator k.Rest
    pub after : StakingValidator k.Rest
    pub val_addr : Bytes
    pub was : k.get_validator s a ≡ ok before
    pub is_now : k.get_validator t a ≡ ok after
    pub named : k.staking_codec.bytes_to_string a ≡ ok val_addr
    pub at_zero : after.unbonding_height ≡ pos 0
    pub same_operator : after.operator_address ≡ before.operator_address
    pub same_rest : after.rest ≡ before.rest
    pub jailed_iff :
        (after.jailed ≡ true)
        ↔ ((before.jailed ≡ true) ⊎ ((allowed ≢ []) × (Listed val_addr allowed → ⊥)))

  pub reset_jailed_iff :
      (allowed : List Bytes) (n : Bytes) (v : StakingValidator k.Rest)
      → ((reset_record k allowed n v).jailed ≡ true)
        ↔ ((v.jailed ≡ true) ⊎ ((allowed ≢ []) × (Listed n allowed → ⊥)))
  unfolding reset_record
  reset_jailed_iff allowed n v = elim (Bool-cases (applies allowed && not (is_allowed allowed n))) [
    | inl e ↦ (λ h. inr ((jails_iff allowed n).1 e), λ h. rw (e) refl)
    | inr e ↦ (
      (λ h. inl (rw (e) at h)),
      λ h. elim h [ inl j ↦ rw (e) j | inr j ↦ absurd (let f = (jails_iff allowed n).0 j in cc) ],
    )
  ]
