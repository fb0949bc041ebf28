-- ===== src/TrustDeposit/Dust.antt =====
-- The dust of x/td over the blocks: it is always a fraction of one unit.
use veranatest.TrustDeposit.Blocks.{Accounts, begin_blocker_ok}
use veranatest.TrustDeposit.Funds.{begin_blocker, blocks_per_year, per_block_yield, to_int64}
use veranatest.TrustDeposit.Settlement.{IsNonneg, Settled, accrued, paid, skipped}
use veranatest.Sdk.Decimal.{precision}
use veranatest.Prelude.{
  Error, Outcome, ap, arith, err, inl, inr, none, ok, ok_injective, panicked, refl, some, subst,
  sym, ℕ, ◌<◌, ◌^◌, ◌∙◌, ◌≡◌, ◌⊎◌,
}
use veranatest.Prelude.Int.{pos, pos_part, ◌≤ℤ◌}
use veranatest.TrustDeposit.Types.{DustAmount, Keeper, Params, State, get_dust_amount}

module _ (k : Keeper) where
  -- A decimal that is not negative and below one.
  abbrev pub IsFraction : k.dec.LegacyDec → Type 0
  IsFraction d = (pos 0 ≤ℤ k.dec.atomics d) × (pos_part (k.dec.atomics d) < precision)

  -- The dust that is read is such a decimal.
  pub record HasFractionDust (s : State k) : Type 0 where
    pub fraction : (d : k.dec.LegacyDec) → get_dust_amount k s ≡ ok d → IsFraction d

  dust_record : k.dec.LegacyDec → DustAmount k.dec
  dust_record d = record { dust = d }

  read_dust :
      (s : State k) (d : k.dec.LegacyDec)
      → get_dust_amount k s ≡ ok d
      → (k.dust_amount.content s.dust_amount ≡ some (record { dust = d }))
        ⊎ ((k.dust_amount.content s.dust_amount ≡ none) × (d ≡ k.dec.zero_dec))
  unfolding get_dust_amount dust_record
  read_dust s d h = go (k.dust_amount.get s.dust_amount) refl
    where
      go :
          (r : Outcome (DustAmount k.dec))
          → k.dust_amount.get s.dust_amount ≡ r
          → (k.dust_amount.content s.dust_amount ≡ some (record { dust = d }))
            ⊎ ((k.dust_amount.content s.dust_amount ≡ none) × (d ≡ k.dec.zero_dec))
      go (ok x) e = inl (
          k.dust_amount.get_ok s.dust_amount x e
          ∙ ap (λ (y : k.dec.LegacyDec). some (dust_record y))
              (ok_injective (rw (e, get_dust_amount) at h)))
      go (err Error.not_found) e = inr (
        k.dust_amount.get_not_found s.dust_amount e,
        sym (ok_injective (rw (e, get_dust_amount) at h)),
      )
      go (err x) e = ground arith
      go panicked e = ground arith

  fraction_of :
      (s : State k) (x : DustAmount k.dec)
      → k.dust_amount.content s.dust_amount ≡ some x
      → IsFraction x.dust
      → HasFractionDust s
  unfolding dust_record
  fraction_of s x stored f = record {
    fraction = λ d h. elim (read_dust s d h) [
      | inl e ↦
          let same : x ≡ dust_record d = cc (sym stored ∙ e) in
          subst (λ (y : DustAmount k.dec). IsFraction y.dust) same f
      | inr (e, z) ↦ cc
    ];
  }

  pub Settled-HasFractionDust :
      (s t : State k) (n : ℕ) → HasFractionDust s → Settled k s t n → HasFractionDust t
  Settled-HasFractionDust s t n f (accrued x small stored e bank) =
      fraction_of t x stored (rw e (omega arith))
  Settled-HasFractionDust s t n f (skipped big short same) =
      subst (λ x. HasFractionDust x) (sym same) f
  Settled-HasFractionDust s t n f (paid x c big stored e amounts moved) =
      fraction_of t x stored (rw e (omega arith))

  -- The parameters that are read give a yield that is no debt: the value is below 2^63, and the
  -- rate is not negative.
  pub record HasSaneParams (s : State k) : Type 0 where
    pub value_fits :
        (p : Params k.dec) → k.params.get s.params ≡ ok p → p.trust_deposit_value < 2 ^ 63
    pub rate_nonneg :
        (p : Params k.dec)
        → k.params.get s.params ≡ ok p
        → pos 0 ≤ℤ k.dec.atomics p.trust_deposit_yield_rate

  from_int_nonneg : (n : ℕ) → pos 0 ≤ℤ k.dec.atomics (k.dec.from_int (pos n))
  from_int_nonneg n = let (p, q) = k.dec.from_int_value (pos n) in omega (arith, p, q)

  to_int64_small : (n : ℕ) → n < 2 ^ 63 → to_int64 n ≡ pos n
  unfolding to_int64
  to_int64_small n h = ground arith

  yield_nonneg_lem :
      (p : Params k.dec) (y : k.dec.LegacyDec)
      → p.trust_deposit_value < 2 ^ 63
      → pos 0 ≤ℤ k.dec.atomics p.trust_deposit_yield_rate
      → per_block_yield k p ≡ ok y
      → pos 0 ≤ℤ k.dec.atomics y
  unfolding per_block_yield
  yield_nonneg_lem p y fits rate h =
      go (k.dec.mul (k.dec.from_int (to_int64 p.trust_deposit_value)) p.trust_deposit_yield_rate)
        refl
    where
      go :
          (r : Outcome k.dec.LegacyDec)
          → k.dec.mul (k.dec.from_int (to_int64 p.trust_deposit_value)) p.trust_deposit_yield_rate
            ≡ r
          → pos 0 ≤ℤ k.dec.atomics y
      go (ok a) e =
          k.dec.quo_nonneg a (k.dec.from_int (pos blocks_per_year)) y (rw (e, per_block_yield) at h)
            (k.dec.mul_nonneg _ _ a e
              (subst (λ i. pos 0 ≤ℤ k.dec.atomics (k.dec.from_int i))
                (sym (to_int64_small p.trust_deposit_value fits))
                (from_int_nonneg p.trust_deposit_value))
              rate)
            (from_int_nonneg blocks_per_year)
      go (err x) e = ground arith
      go panicked e = ground arith

  pub sane-IsNonneg : (s : State k) → HasFractionDust s → HasSaneParams s → IsNonneg k s
  sane-IsNonneg s f sane = record {
    dust_nonneg = λ d h. (f.fraction d h).0;
    yield_nonneg =
        λ p y got h. yield_nonneg_lem p y (sane.value_fits p got) (sane.rate_nonneg p got) h;
  }

  -- A block's start that returns no error keeps the dust a fraction of one unit and leaves the store
  -- of the parameters as it was, where the dust was such a fraction, the stored trust deposit is below
  -- 2^63, its yield rate is not negative, the code's pool address is that of the pool account and the
  -- three accounts are different; so the next block's start meets these conditions again.
  pub begin_blocker-HasFractionDust :
      (s t : State k)
      → HasFractionDust s
      → HasSaneParams s
      → Accounts k
      → begin_blocker k s ≡ (ok tt, t)
      → HasFractionDust t × HasSaneParams t × (t.params ≡ s.params)
  begin_blocker-HasFractionDust s t f sane a h =
      let (m, (p, y, x, got, yielded, dust, settled, params), emptied) =
        begin_blocker_ok k s t (sane-IsNonneg s f sane) a h in
      let after = Settled-HasFractionDust s m _ f settled in
      let same : t.params ≡ s.params = emptied.same_params ∙ params in
      (
        record {
          fraction = λ d g. after.fraction d (
              subst (λ q. get_dust_amount k (record m { dust_amount = q }) ≡ ok d) emptied.same_dust
                (same_read t m d g));
        },
        record {
          value_fits = λ p g. sane.value_fits p (subst (λ q. k.params.get q ≡ ok p) same g);
          rate_nonneg = λ p g. sane.rate_nonneg p (subst (λ q. k.params.get q ≡ ok p) same g);
        },
        same,
      )
    where
      same_read :
          (t m : State k) (d : k.dec.LegacyDec)
          → get_dust_amount k t ≡ ok d
          → get_dust_amount k (record m { dust_amount = t.dust_amount }) ≡ ok d
      same_read t m d g = unfold get_dust_amount in g
