-- ===== src/TrustDeposit/Amounts.antt =====
-- The single steps of a payment in x/td/keeper/abci.go: the dust that is stored, the coins that are
-- sent, and the sums of decimals.
use veranatest.Prelude.{
  Bytes, Ensures, Outcome, ap, arith, err, leb, ok, panicked, pure, refl, some, sym, ℕ, ◌%◌, ◌+◌,
  ◌/◌, ◌∙◌, ◌≡◌, ◌≢◌,
}
use veranatest.Prelude.Int.{eq_of_parts, minus_parts, neg_part, pos, pos_part, ◌+ℤ◌, ◌≤ℤ◌}
use veranatest.Sdk.Bank.{Moved}
use veranatest.Sdk.Decimal.{precision}
use veranatest.TrustDeposit.Types.{Keeper, State, set_dust_amount}
use veranatest.TrustDeposit.Funds.{send_coins}

module _ (k : Keeper) where
  pub set_dust_ok :
      (d : k.dec.LegacyDec) (s : State k)
      → Ensures (set_dust_amount k d) s (λ u t.
        (k.dust_amount.content t.dust_amount ≡ some (record { dust = d }))
        × (t.bank ≡ s.bank)
        × (t.params ≡ s.params))
  unfolding set_dust_amount
  set_dust_ok d s = record {
    at = λ u t h. go u t (k.dust_amount.set s.dust_amount (record { dust = d })) refl h;
  }
    where
      go :
          (u : Unit {0}) (t : State k) (r : Outcome k.dust_amount.Store)
          → k.dust_amount.set s.dust_amount (record { dust = d }) ≡ r
          → set_dust_amount k d s ≡ (ok u, t)
          → (k.dust_amount.content t.dust_amount ≡ some (record { dust = d }))
            × (t.bank ≡ s.bank)
            × (t.params ≡ s.params)
      go u t (ok q) e h =
          let same : t ≡ record s { dust_amount = q } = ground arith in
          (
            ap (λ (x : State k). k.dust_amount.content x.dust_amount) same
                ∙ k.dust_amount.set_ok s.dust_amount q (record { dust = d }) e,
            ap (λ (x : State k). x.bank) same,
            ap (λ (x : State k). x.params) same,
          )
      go u t (err x) e h = ground arith
      go u t panicked e h = ground arith

  -- The parts of a sum of two values that are no debts.
  pub sum_parts :
      (d y total : k.dec.LegacyDec)
      → k.dec.add d y ≡ ok total
      → pos 0 ≤ℤ k.dec.atomics d
      → pos 0 ≤ℤ k.dec.atomics y
      → k.dec.atomics total ≡ pos (pos_part (k.dec.atomics d) + pos_part (k.dec.atomics y))
  unfolding ◌+ℤ◌
  sum_parts d y total e hd hy = k.dec.add_ok d y total e ∙ ground arith

  pub whole_unit :
      (total : k.dec.LegacyDec) (n : ℕ)
      → k.dec.atomics total ≡ pos n
      → k.dec.gte total (k.dec.from_int (pos 1)) ≡ leb precision n
  whole_unit total n e =
      let (p, q) = k.dec.from_int_value (pos 1) in
      k.dec.gte_value total (k.dec.from_int (pos 1)) ∙ ground (arith, p, q, e)

  pub rest_value :
      (total r : k.dec.LegacyDec) (n : ℕ)
      → k.dec.atomics total ≡ pos n
      → k.dec.sub total (k.dec.from_int (pos (n / precision))) ≡ ok r
      → k.dec.atomics r ≡ pos (n % precision)
  rest_value total r n e h =
      let (p, q) = k.dec.from_int_value (pos (n / precision)) in
      k.dec.sub_ok total _ r h
      ∙ eq_of_parts _ _ (
          omega (
            arith,
            minus_parts (k.dec.atomics total)
                (k.dec.atomics (k.dec.from_int (pos (n / precision)))),
            p,
            q,
            ap pos_part e,
            ap neg_part e,
          ))

  pub send_ok :
      (from to : Bytes) (c : k.bank_keeper.Coins) (s t : State k)
      → send_coins k from to c s ≡ (ok tt, t)
      → k.bank_keeper.module_address from ≢ k.bank_keeper.module_address to
      → Moved k.bank_keeper.balance k.bank_keeper.amount_of
          (k.bank_keeper.module_address from)
          (k.bank_keeper.module_address to)
          c
          s.bank
          t.bank
        × (t.params ≡ s.params)
        × (t.dust_amount ≡ s.dust_amount)
  unfolding send_coins
  send_ok from to c s t h n =
      let r = k.bank_keeper.send_coins_from_module_to_module from to c s.bank in
      let done : r.0 ≡ ok tt = ap (λ (x : Outcome (Unit {0}) × State k). x.0) h in
      let after : record s { bank = r.1 } ≡ t = ap (λ (x : Outcome (Unit {0}) × State k). x.1) h in
      (
        k.bank_keeper.module_to_module_ok from to c s.bank t.bank (λ i. (done i, (after i).bank)) n,
        sym (ap (λ (x : State k). x.params) after),
        sym (ap (λ (x : State k). x.dust_amount) after),
      )

  pub pure_ok : (s t : State k) (u : Unit {0}) → pure tt s ≡ (ok u, t) → t ≡ s
  unfolding pure
  pure_ok s t u h = sym (ap (λ (x : Outcome (Unit {0}) × State k). x.1) h)
