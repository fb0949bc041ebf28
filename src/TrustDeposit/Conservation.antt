-- ===== src/TrustDeposit/Conservation.antt =====
-- The start of a block, `BeginBlocker` of x/td/keeper/abci.go: nothing is created or lost on the way,
-- whatever the dust and the yield are.
use veranatest.TrustDeposit.Blocks.{
  Accounts, pool_holds, protocol_holds, send_back_Ensures, td_holds,
}
use veranatest.TrustDeposit.Funds.{
  begin_blocker, pay_out, protocol_pool, send_coins, send_funds_from_verana_pool, transfer_yield,
}
use veranatest.TrustDeposit.Types.{
  Keeper, State, set_dust_amount, td_module_name, verana_pool_account,
}
use veranatest.Prelude.{
  Bytes, Ensures, Ensures-bind, Ensures-gets, Ensures-if, Ensures-lift, ap, arith, not, ok, pure,
  sym, ◌+◌, ◌∙◌, ◌≡◌,
}
use veranatest.TrustDeposit.Amounts.{pure_ok, send_ok, set_dust_ok}
use veranatest.Prelude.Int.{pos, ℤ}

module _ (k : Keeper) where
  -- Coins go between the pool's account and that of td only.
  record Flows (s t : State k) : Type 0 where
    pub together :
        (d : Bytes) → pool_holds k t d + td_holds k t d ≡ pool_holds k s d + td_holds k s d
    pub protocol_same : (d : Bytes) → protocol_holds k t d ≡ protocol_holds k s d

  same-Flows : (s t : State k) → t.bank ≡ s.bank → Flows s t
  same-Flows s t e = record {
    together = λ d.
        ap
          (λ b.
            k.bank_keeper.balance b (k.bank_keeper.module_address verana_pool_account) d
            + k.bank_keeper.balance b (k.bank_keeper.module_address td_module_name) d)
          e;
    protocol_same =
        λ d. ap (λ b. k.bank_keeper.balance b (k.bank_keeper.module_address protocol_pool) d) e;
  }

  Flows-same : (s m t : State k) → Flows s m → t.bank ≡ m.bank → Flows s t
  Flows-same s m t f e =
      let g = same-Flows m t e in
      record {
        together = λ d. g.together d ∙ f.together d;
        protocol_same = λ d. g.protocol_same d ∙ f.protocol_same d;
      }

  send-Flows :
      (c : k.bank_keeper.Coins) (s m : State k)
      → Accounts k
      → send_coins k verana_pool_account td_module_name c s ≡ (ok tt, m)
      → Flows s m
  send-Flows c s m a sent =
      let (moved, params, dust) = send_ok k _ _ c s m sent a.pool_ne_td in
      record {
        together = λ d. omega (arith, moved.sender d, moved.recipient d);
        protocol_same = λ d.
            moved.others (k.bank_keeper.module_address protocol_pool) d
              (λ p. a.pool_ne_protocol (sym p)) (λ p. a.td_ne_protocol (sym p));
      }

  pay_out-Flows :
      (total : k.dec.LegacyDec) (i : ℤ) (c : k.bank_keeper.Coins) (s : State k)
      → Accounts k
      → Ensures (pay_out k total i c) s (λ u t. Flows s t)
  unfolding pay_out
  pay_out-Flows total i c s a = Ensures-bind _ _ λ u m sent. Ensures-lift _ _ λ r rest. record {
    at = λ v t h.
        let (stored, bank, params) = (set_dust_ok k r m).at v t h in
        Flows-same s m t (send-Flows c s m a sent) bank;
  }

  transfer-Flows :
      (total : k.dec.LegacyDec) (s : State k)
      → Accounts k
      → Ensures (transfer_yield k total) s (λ u t. Flows s t)
  unfolding transfer_yield
  transfer-Flows total s a = Ensures-lift _ _ λ i cut. Ensures-lift _ _ λ c made.
      Ensures-gets _ _ λ pool read.
        Ensures-if (not (k.bank_keeper.is_all_gte pool c)) (pure tt) (pay_out k total i c)
          (λ short. record {
            at = λ u t h. same-Flows s t (ap (λ (x : State k). x.bank) (pure_ok k s t u h));
          })
          (λ enough. pay_out-Flows total i c s a)

  send_funds-Flows :
      (s : State k) → Accounts k → Ensures (send_funds_from_verana_pool k) s (λ u t. Flows s t)
  unfolding send_funds_from_verana_pool
  send_funds-Flows s a = Ensures-gets _ _ λ p got. Ensures-lift _ _ λ y yielded.
      Ensures-gets _ _ λ d dust. Ensures-lift _ _ λ total added.
        Ensures-if (k.dec.gte total (k.dec.from_int (pos 1))) (transfer_yield k total)
          (set_dust_amount k total) (λ big. transfer-Flows total s a)
          (λ small. record {
            at = λ u t h.
                let (stored, bank, params) = (set_dust_ok k total s).at u t h in
                same-Flows s t bank;
          })

  begin-conserves :
      (s : State k)
      → Accounts k
      → Ensures (begin_blocker k) s λ u t.
        (d : Bytes)
        → pool_holds k t d + td_holds k t d + protocol_holds k t d
          ≡ pool_holds k s d + td_holds k s d + protocol_holds k s d
  unfolding begin_blocker
  begin-conserves s a = Ensures-bind _ _ λ u m h. record {
    at = λ v t g d.
        let f = (send_funds-Flows s a).at u m h in
        let e = (send_back_Ensures k m a).at v t g in
        omega (arith, f.together d, f.protocol_same d, e.pool_empty d, e.given_back d, e.td_same d);
  }

  -- A block's start that returns no error leaves the sum of the accounts of the pool, of td and of
  -- x/protocolpool as it was, in every denomination and whatever the dust and the yield are, where the
  -- code's pool address is that of the pool account and the three accounts are different.
  pub begin_blocker_conserves :
      (s t : State k)
      → Accounts k
      → begin_blocker k s ≡ (ok tt, t)
      → (d : Bytes)
      → pool_holds k t d + td_holds k t d + protocol_holds k t d
        ≡ pool_holds k s d + td_holds k s d + protocol_holds k s d
  begin_blocker_conserves s t a h = (begin-conserves s a).at tt t h
