-- ===== src/GenesisAccounts.antt =====
-- app/genesis_account.go: the accounts of a simulated genesis state.
mod Tests
use veranatest.Prelude.{
  Bool, Bytes, Error, List, Outcome, [], err, false, if◌then◌else◌, is_empty, not, ok, panicked,
  refl, true, zero, ◌↔◌, ◌∷◌, ◌≡◌, ◌≢◌,
}
use veranatest.Prelude.Int.{leb_ℤ, ℤ}

-- What the code uses of the SDK's types.
pub record AuthTypes : Type 1 where
  pub Coins : Type 0
  pub BaseAccount : Type 0
  pub is_zero : Coins → Bool
  pub validate_base : BaseAccount → Outcome (Unit {0})
  -- `ModuleAccount{BaseAccount, Name, Permissions}.Validate()`
  pub validate_module_account : BaseAccount → Bytes → List Bytes → Outcome (Unit {0})

pub record GenesisAccount (auth : AuthTypes) : Type 0 where
  pub base_account : auth.BaseAccount
  pub original_vesting : auth.Coins
  pub delegated_free : auth.Coins
  pub delegated_vesting : auth.Coins
  pub start_time : ℤ
  pub end_time : ℤ
  pub module_name : Bytes
  pub module_permissions : List Bytes

-- A test that returns its error before the next one.
unfoldable pub and_then : Outcome (Unit {0}) → Outcome (Unit {0}) → Outcome (Unit {0})
and_then (ok u) next = next
and_then (err e) next = err e
and_then panicked next = panicked

module _ (auth : AuthTypes) (sga : GenesisAccount auth) where
  unfoldable pub check_vesting : Outcome (Unit {0})
  check_vesting =
      if not (auth.is_zero sga.original_vesting)
      then (if leb_ℤ sga.end_time sga.start_time then err Error.vesting_times else ok tt)
      else ok tt

  unfoldable pub check_module : Outcome (Unit {0})
  check_module =
      if not (is_empty sga.module_name)
      then auth.validate_module_account sga.base_account sga.module_name sga.module_permissions
      else ok tt

  -- `GenesisAccount.Validate`
  unfoldable pub validate_account : Outcome (Unit {0})
  unfolding check_vesting check_module and_then
  validate_account =
      and_then check_vesting (and_then check_module (auth.validate_base sga.base_account))

  -- What a valid account has.
  pub record IsValid : Type 0 where
    pub vesting_times :
        (auth.is_zero sga.original_vesting ≡ false) → leb_ℤ sga.end_time sga.start_time ≡ false
    pub module_account :
        sga.module_name ≢ []
        → auth.validate_module_account sga.base_account sga.module_name sga.module_permissions
          ≡ ok tt
    pub base : auth.validate_base sga.base_account ≡ ok tt

  and_then_iff : (a b : Outcome (Unit {0})) → (and_then a b ≡ ok tt) ↔ ((a ≡ ok tt) × (b ≡ ok tt))
  unfolding and_then
  and_then_iff (ok u) b = ((λ h. (refl, h)), (λ h. h.1))
  and_then_iff (err e) b = ((λ h. cc), (λ h. cc))
  and_then_iff panicked b = ((λ h. cc), (λ h. cc))

  check_vesting_iff :
      (check_vesting ≡ ok tt)
      ↔ (auth.is_zero sga.original_vesting ≡ false → leb_ℤ sga.end_time sga.start_time ≡ false)
  unfolding check_vesting
  check_vesting_iff = go (auth.is_zero sga.original_vesting) (leb_ℤ sga.end_time sga.start_time)
    where
      go :
          (zero late : Bool)
          → ((if not zero then (if late then err Error.vesting_times else ok tt) else ok tt)
              ≡ ok (tt {0}))
            ↔ (zero ≡ false → late ≡ false)
      go true late = ((λ h e. cc), (λ h. refl))
      go false true = ((λ h. cc), (λ h. let e : true ≡ false = h refl in cc))
      go false false = ((λ h e. refl), (λ h. refl))

  check_module_iff : (check_module ≡ ok tt) ↔ (
      sga.module_name ≢ []
      → auth.validate_module_account sga.base_account sga.module_name sga.module_permissions
        ≡ ok tt)
  unfolding check_module
  check_module_iff = go sga.module_name
    where
      go :
          (name : Bytes)
          → ((if not (is_empty name)
                then auth.validate_module_account sga.base_account name sga.module_permissions
                else ok tt)
              ≡ ok tt)
            ↔ (name ≢ []
                → auth.validate_module_account sga.base_account name sga.module_permissions ≡ ok tt)
      go [] = ((λ h n. absurd (n refl)), (λ h. refl))
      go (x ∷ name) = ((λ h n. h), (λ h. h (λ e. cc)))

  -- An account is valid exactly when its vesting, if it has one, starts before it ends, its module
  -- account, if it names one, is valid, and its base account is valid.
  pub validate_account_iff : (validate_account ≡ ok tt) ↔ IsValid
  unfolding validate_account
  validate_account_iff = (
    (λ h.
        let outer = (and_then_iff _ _).0 h in
        let inner = (and_then_iff _ _).0 outer.1 in
        record {
          vesting_times = check_vesting_iff.0 outer.0;
          module_account = check_module_iff.0 inner.0;
          base = inner.1;
        }),
    (λ v. (and_then_iff _ _).1 (
      check_vesting_iff.1 v.vesting_times,
      (and_then_iff _ _).1 (check_module_iff.1 v.module_account, v.base),
    )),
  )
