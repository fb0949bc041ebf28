-- ===== src/TrustDeposit/Blocks.antt =====
-- The start of a block, `BeginBlocker` of x/td/keeper/abci.go: the yield is settled and the pool is
-- emptied.
use veranatest.TrustDeposit.Amounts.{pure_ok, send_ok}
use veranatest.TrustDeposit.Settlement.{IsNonneg, Yielded, send_funds_ok}
use veranatest.Prelude.{
  Bytes, Ensures, Ensures-bind, Ensures-gets, Ensures-if, ap, arith, ok, ok_injective, pure, refl,
  subst, sym, true, ℕ, ◌+◌, ◌∙◌, ◌≡◌, ◌≢◌,
}
use veranatest.TrustDeposit.Types.{Keeper, State, td_module_name, verana_pool_account}
use veranatest.TrustDeposit.Funds.{
  begin_blocker, pool_balances, protocol_pool, send_coins, send_funds_back_to_community_pool,
  verana_pool_addr,
}

-- The accounts of the flow: the address in the code is that of the pool's account, and the three
-- accounts are different.
pub record Accounts (k : Keeper) : Type 0 where
  pub pool_is : verana_pool_addr k ≡ k.bank_keeper.module_address verana_pool_account
  pub pool_ne_td :
      k.bank_keeper.module_address verana_pool_account ≢ k.bank_keeper.module_address td_module_name
  pub pool_ne_protocol :
      k.bank_keeper.module_address verana_pool_account ≢ k.bank_keeper.module_address protocol_pool
  pub td_ne_protocol :
      k.bank_keeper.module_address td_module_name ≢ k.bank_keeper.module_address protocol_pool

module _ (k : Keeper) where
  -- What the three accounts of the flow hold.
  abbrev pub pool_holds : State k → Bytes → ℕ
  pool_holds s d = k.bank_keeper.balance s.bank (k.bank_keeper.module_address verana_pool_account) d

  abbrev pub td_holds : State k → Bytes → ℕ
  td_holds s d = k.bank_keeper.balance s.bank (k.bank_keeper.module_address td_module_name) d

  abbrev pub protocol_holds : State k → Bytes → ℕ
  protocol_holds s d = k.bank_keeper.balance s.bank (k.bank_keeper.module_address protocol_pool) d

  -- The pool's account is empty, and what it held is in the account of x/protocolpool.
  pub record Emptied (s t : State k) : Type 0 where
    pub pool_empty : (d : Bytes) → pool_holds t d ≡ 0
    pub given_back : (d : Bytes) → protocol_holds t d ≡ protocol_holds s d + pool_holds s d
    pub td_same : (d : Bytes) → td_holds t d ≡ td_holds s d
    pub same_dust : t.dust_amount ≡ s.dust_amount
    pub same_params : t.params ≡ s.params

  pool_read :
      (s : State k) (pool : k.bank_keeper.Coins)
      → Accounts k
      → pool_balances k s ≡ ok pool
      → (d : Bytes) → k.bank_keeper.amount_of pool d ≡ pool_holds s d
  unfolding pool_balances
  pool_read s pool a h d =
      ap (λ c. k.bank_keeper.amount_of c d) (sym (ok_injective h))
      ∙ k.bank_keeper.get_all_balances_ok s.bank (verana_pool_addr k) d
      ∙ ap (λ x. k.bank_keeper.balance s.bank x d) a.pool_is

  nothing_held :
      (s t : State k) (pool : k.bank_keeper.Coins) (u : Unit {0})
      → ((d : Bytes) → k.bank_keeper.amount_of pool d ≡ pool_holds s d)
      → k.bank_keeper.is_zero pool ≡ true
      → pure tt s ≡ (ok u, t)
      → Emptied s t
  nothing_held s t pool u held zero_pool h =
      let same : t ≡ s = pure_ok k s t u h in
      subst (λ x. Emptied s x) (sym same)
        (record {
          pool_empty = λ d. sym (held d) ∙ k.bank_keeper.is_zero_ok pool zero_pool d;
          given_back = λ d. omega (arith, held d, k.bank_keeper.is_zero_ok pool zero_pool d);
          td_same = λ d. refl;
          same_dust = refl;
          same_params = refl;
        })

  all_sent :
      (s t : State k) (pool : k.bank_keeper.Coins)
      → Accounts k
      → ((d : Bytes) → k.bank_keeper.amount_of pool d ≡ pool_holds s d)
      → send_coins k verana_pool_account protocol_pool pool s ≡ (ok tt, t)
      → Emptied s t
  all_sent s t pool a held h =
      let (moved, params, dust) = send_ok k _ _ pool s t h a.pool_ne_protocol in
      record {
        pool_empty = λ d. omega (arith, held d, moved.sender d);
        given_back = λ d. omega (arith, held d, moved.recipient d);
        td_same = λ d. moved.others _ d (λ e. a.pool_ne_td (sym e)) a.td_ne_protocol;
        same_dust = dust;
        same_params = params;
      }

  pub send_back_Ensures :
      (s : State k)
      → Accounts k
      → Ensures (send_funds_back_to_community_pool k) s (λ u t. Emptied s t)
  unfolding send_funds_back_to_community_pool
  send_back_Ensures s a = Ensures-gets _ _ λ pool read.
      Ensures-if _ _ _
        (λ zero_pool. record {
          at = λ u t h. nothing_held s t pool u (pool_read s pool a read) zero_pool h;
        })
        (λ some_held. record { at = λ u t h. all_sent s t pool a (pool_read s pool a read) h })

  -- A block's start in two parts.
  abbrev pub BlockStarted : State k → State k → Type 0
  BlockStarted s t = (m : State k) × Yielded k s m × Emptied m t

  begin_Ensures :
      (s : State k)
      → IsNonneg k s
      → Accounts k
      → Ensures (begin_blocker k) s (λ u t. BlockStarted s t)
  unfolding begin_blocker
  begin_Ensures s nonneg a = Ensures-bind _ _ λ u m h. record {
    at = λ v t g. (m, send_funds_ok k s m nonneg a.pool_ne_td h, (send_back_Ensures m a).at v t g);
  }

  -- A block's start that returns no error settles the yield, and then empties the pool's account
  -- into that of x/protocolpool, where the dust and the yield of the block are not negative, the
  -- code's pool address is that of the pool account and the three accounts are different.
  pub begin_blocker_ok :
      (s t : State k)
      → IsNonneg k s
      → Accounts k
      → begin_blocker k s ≡ (ok tt, t)
      → BlockStarted s t
  begin_blocker_ok s t nonneg a h = (begin_Ensures s nonneg a).at tt t h
