-- ===== src/TrustDeposit/Settlement.antt =====
-- What `SendFundsFromVeranaPool` (x/td/keeper/abci.go) does with the yield of a block.
use veranatest.TrustDeposit.Amounts.{
  pure_ok, rest_value, send_ok, set_dust_ok, sum_parts, whole_unit,
}
use veranatest.Sdk.Decimal.{precision}
use veranatest.Prelude.{
  Bool-cases, Bytes, Ensures, Ensures-bind, Ensures-gets, Ensures-if, Ensures-lift, ap, arith,
  bytes_eq, bytes_eq→eq, false, if◌then◌else◌, inl, inr, leb, leb→le, not, ok, ok_injective, some,
  subst, sym, true, ℕ, ◌%◌, ◌+◌, ◌/◌, ◌<◌, ◌∙◌, ◌≡◌, ◌≢◌, ◌≤◌,
}
use veranatest.Prelude.Int.{pos, pos_part, ℤ, ◌≤ℤ◌}
use veranatest.TrustDeposit.Types.{
  DustAmount, Keeper, Params, State, get_dust_amount, td_module_name, verana_pool_account,
}
use veranatest.TrustDeposit.Funds.{
  pay_out, per_block_yield, pool_balances, send_funds_from_verana_pool, transfer_yield, uvna,
  verana_pool_addr,
}
use veranatest.Sdk.Bank.{Moved}

-- The dust and the yield of the block are no debts.
pub record IsNonneg (k : Keeper) (s : State k) : Type 0 where
  pub dust_nonneg : (d : k.dec.LegacyDec) → get_dust_amount k s ≡ ok d → pos 0 ≤ℤ k.dec.atomics d
  pub yield_nonneg :
      (p : Params k.dec) (y : k.dec.LegacyDec)
      → k.params.get s.params ≡ ok p
      → per_block_yield k p ≡ ok y
      → pos 0 ≤ℤ k.dec.atomics y

-- The state after `total` atomic units, the old dust and the yield together, are settled.
pub data Settled (k : Keeper) (s t : State k) (total : ℕ) : Type 0 where
  -- Less than one unit: all of it is the new dust.
  accrued :
      (d : DustAmount k.dec)
      → total < precision
      → k.dust_amount.content t.dust_amount ≡ some d
      → k.dec.atomics d.dust ≡ pos total
      → t.bank ≡ s.bank
      → Settled k s t total
  -- The pool holds less than the whole units: nothing changes.
  skipped :
      precision ≤ total
      → k.bank_keeper.balance s.bank (verana_pool_addr k) uvna < total / precision
      → t ≡ s
      → Settled k s t total
  -- The whole units go from the pool's account to the module's, and the rest is the new dust.
  paid :
      (d : DustAmount k.dec) (c : k.bank_keeper.Coins)
      → precision ≤ total
      → k.dust_amount.content t.dust_amount ≡ some d
      → k.dec.atomics d.dust ≡ pos (total % precision)
      → ((e : Bytes)
          → k.bank_keeper.amount_of c e ≡ (if bytes_eq uvna e then total / precision else 0))
      → Moved k.bank_keeper.balance k.bank_keeper.amount_of
          (k.bank_keeper.module_address verana_pool_account)
          (k.bank_keeper.module_address td_module_name)
          c
          s.bank
          t.bank
      → Settled k s t total

module _ (k : Keeper) where
  -- The payment of the whole units, from a total of `n` atomic units.
  pay_out_ok :
      (total : k.dec.LegacyDec) (n : ℕ) (c : k.bank_keeper.Coins) (s : State k)
      → k.dec.atomics total ≡ pos n
      → precision ≤ n
      → ((e : Bytes) → k.bank_keeper.amount_of c e ≡ (if bytes_eq uvna e then n / precision else 0))
      → k.bank_keeper.module_address verana_pool_account
        ≢ k.bank_keeper.module_address td_module_name
      → Ensures
          (pay_out k total (pos (n / precision)) c)
          s
          (λ u t. Settled k s t n × (t.params ≡ s.params))
  unfolding pay_out
  pay_out_ok total n c s e big amounts apart = Ensures-bind _ _ λ u m sent.
      Ensures-lift _ _ λ r rest. record {
        at = λ v t h.
            let (moved, params, dust) = send_ok k _ _ c s m sent apart in
            let (stored, bank, params') = (set_dust_ok k r m).at v t h in
            (
              paid (record { dust = r }) c big stored (rest_value k total r n e rest) amounts
                  (subst
                    (λ b.
                      Moved k.bank_keeper.balance k.bank_keeper.amount_of
                        (k.bank_keeper.module_address verana_pool_account)
                        (k.bank_keeper.module_address td_module_name) c s.bank b)
                    (sym bank) moved),
              params' ∙ params,
            );
      }

  short_pool :
      (c : k.bank_keeper.Coins) (n : ℕ) (s : State k)
      → ((e : Bytes) → k.bank_keeper.amount_of c e ≡ (if bytes_eq uvna e then n else 0))
      → k.bank_keeper.is_all_gte (k.bank_keeper.get_all_balances s.bank (verana_pool_addr k)) c
        ≡ false
      → k.bank_keeper.balance s.bank (verana_pool_addr k) uvna < n
  short_pool c n s amounts h =
      let pool = k.bank_keeper.get_all_balances s.bank (verana_pool_addr k) in
      let (e, less) = k.bank_keeper.is_all_gte_false pool c h in
      elim (Bool-cases (bytes_eq uvna e)) [
        | inl same ↦
            subst (λ (d : Bytes). k.bank_keeper.balance s.bank (verana_pool_addr k) d < n)
              (sym (bytes_eq→eq _ _ same))
              (omega (
                arith,
                amounts_at e same,
                k.bank_keeper.get_all_balances_ok s.bank (verana_pool_addr k) e,
                less,
              ))
        | inr other ↦ absurd (ground (arith, amounts e))
      ]
    where
      amounts_at : (e : Bytes) → bytes_eq uvna e ≡ true → k.bank_keeper.amount_of c e ≡ n
      amounts_at e same = ground (arith, amounts e)

  read_ok :
      (s : State k) (pool : k.bank_keeper.Coins)
      → pool_balances k s ≡ ok pool
      → k.bank_keeper.get_all_balances s.bank (verana_pool_addr k) ≡ pool
  unfolding pool_balances
  read_ok s pool h = ok_injective h

  whole_coins :
      (c : k.bank_keeper.Coins) (i : ℤ) (m : ℕ)
      → k.bank_keeper.new_coins uvna i ≡ ok c
      → i ≡ pos m
      → (e : Bytes) → k.bank_keeper.amount_of c e ≡ (if bytes_eq uvna e then m else 0)
  whole_coins c i m made e d =
      (k.bank_keeper.new_coins_ok uvna i c made).1 d
      ∙ ap (λ (j : ℤ). if bytes_eq uvna d then pos_part j else 0) e

  unheld :
      (s : State k) (pool c : k.bank_keeper.Coins)
      → k.bank_keeper.get_all_balances s.bank (verana_pool_addr k) ≡ pool
      → not (k.bank_keeper.is_all_gte pool c) ≡ true
      → k.bank_keeper.is_all_gte (k.bank_keeper.get_all_balances s.bank (verana_pool_addr k)) c
        ≡ false
  unheld s pool c e h = ap (λ x. k.bank_keeper.is_all_gte x c) e ∙ ground arith

  transfer_ok :
      (total : k.dec.LegacyDec) (n : ℕ) (s : State k)
      → k.dec.atomics total ≡ pos n
      → precision ≤ n
      → k.bank_keeper.module_address verana_pool_account
        ≢ k.bank_keeper.module_address td_module_name
      → Ensures (transfer_yield k total) s (λ u t. Settled k s t n × (t.params ≡ s.params))
  unfolding transfer_yield
  transfer_ok total n s e big apart = Ensures-lift _ _ λ i cut. Ensures-lift _ _ λ c made.
      Ensures-gets _ _ λ pool read.
        let cut' : i ≡ pos (n / precision) =
          k.dec.truncate_ok total i cut (ground (arith, e))
          ∙ ap (λ (x : ℤ). pos (pos_part x / precision)) e in
        let amounts = whole_coins c i (n / precision) made cut' in
        Ensures-if _ _ _
          (λ short. record {
            at = λ u t h. (
              skipped big
                  (short_pool c (n / precision) s amounts
                    (unheld s pool c (read_ok s pool read) short))
                  (pure_ok k s t u h),
              ap (λ (x : State k). x.params) (pure_ok k s t u h),
            );
          })
          (λ enough.
            subst
              (λ j.
                Ensures (pay_out k total j c) s (λ u t. Settled k s t n × (t.params ≡ s.params)))
              (sym cut') (pay_out_ok total n c s e big amounts apart))

  -- The total of the old dust and the yield is settled.
  abbrev pub Yielded : State k → State k → Type 0
  Yielded s t =
      (p : Params k.dec) × (y d : k.dec.LegacyDec) × (k.params.get s.params ≡ ok p)
      × (per_block_yield k p ≡ ok y)
      × (get_dust_amount k s ≡ ok d)
      × Settled k s t (pos_part (k.dec.atomics d) + pos_part (k.dec.atomics y))
      × (t.params ≡ s.params)

  send_funds_Ensures :
      (s : State k)
      → IsNonneg k s
      → k.bank_keeper.module_address verana_pool_account
        ≢ k.bank_keeper.module_address td_module_name
      → Ensures (send_funds_from_verana_pool k) s (λ u t. Yielded s t)
  unfolding send_funds_from_verana_pool
  send_funds_Ensures s nonneg apart = Ensures-gets _ _ λ p got. Ensures-lift _ _ λ y yielded.
      Ensures-gets _ _ λ d dust. Ensures-lift _ _ λ total added.
        let n : ℕ = pos_part (k.dec.atomics d) + pos_part (k.dec.atomics y) in
        let e : k.dec.atomics total ≡ pos n =
          sum_parts k d y total added (nonneg.dust_nonneg d dust)
            (nonneg.yield_nonneg p y got yielded) in
        Ensures-if _ _ _
          (λ big. record {
            at = λ u t h.
                let (settled, params) =
                  (transfer_ok total n s e (leb→le _ _ (sym (whole_unit k total n e) ∙ big))
                      apart).at
                    u t h in
                (p, y, d, got, yielded, dust, settled, params);
          })
          (λ small. record {
            at = λ u t h.
                let (stored, bank, params) = (set_dust_ok k total s).at u t h in
                (
                  p,
                  y,
                  d,
                  got,
                  yielded,
                  dust,
                  accrued (record { dust = total }) (below n (sym (whole_unit k total n e) ∙ small))
                      stored e bank,
                  params,
                );
          })
    where
      below : (n : ℕ) → leb precision n ≡ false → n < precision
      below n h = ground arith

  -- Where neither the old dust nor the yield of the block is negative, a run of
  -- `SendFundsFromVeranaPool` that returns no error settles their sum: below one unit it is the new
  -- dust, otherwise its whole units are paid from the pool's account to the module's and the rest is
  -- the new dust, or, if the pool holds less, nothing changes. The parameters stay.
  pub send_funds_ok :
      (s t : State k)
      → IsNonneg k s
      → k.bank_keeper.module_address verana_pool_account
        ≢ k.bank_keeper.module_address td_module_name
      → send_funds_from_verana_pool k s ≡ (ok tt, t)
      → Yielded s t
  send_funds_ok s t nonneg apart h = (send_funds_Ensures s nonneg apart).at tt t h
