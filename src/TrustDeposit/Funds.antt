-- ===== src/TrustDeposit/Funds.antt =====
-- The flow of funds at the start of each block: x/td/keeper/abci.go.
use veranatest.Sdk.Addresses.{address_or_nil}
use veranatest.Prelude.{
  Bytes, Exec, Outcome, ascii, err, gets, if◌then◌else◌, lift, ltb, not, ok, panicked, pure, ℕ, ◌-◌,
  ◌>>=◌, ◌>>◌, ◌^◌,
}
use veranatest.Prelude.Int.{negsuc, pos, ℤ}
use veranatest.TrustDeposit.Types.{
  Keeper, Params, State, get_dust_amount, set_dust_amount, td_module_name, verana_pool_account,
}

-- `int64(x)` of a uint64: the two's complement reading.
unfoldable pub to_int64 : ℕ → ℤ
to_int64 x = if ltb x (2 ^ 63) then pos x else negsuc (2 ^ 64 - x - 1)

abbrev pub blocks_per_year : ℕ
blocks_per_year = 6_311_520

abbrev pub uvna : Bytes
uvna = ascii "uvna"

-- The name of the account of x/protocolpool.
abbrev pub protocol_pool : Bytes
protocol_pool = ascii "protocolpool"

abbrev pub verana_pool_text : Bytes
verana_pool_text = ascii "cosmos1jjfey42zhnwrpv8pmpxgp2jwukcy3emfsewffz"

module _ (k : Keeper) where
  unfoldable pub verana_pool_addr : Bytes
  verana_pool_addr = address_or_nil (k.address_codec.acc_address_from_bech32 verana_pool_text)

  -- `k.bankKeeper.SendCoinsFromModuleToModule(ctx, from, to, coins)`
  unfoldable pub send_coins : Bytes → Bytes → k.bank_keeper.Coins → Exec (State k) (Unit {0})
  send_coins from to coins s =
      let r = k.bank_keeper.send_coins_from_module_to_module from to coins s.bank in
      (r.0, record s { bank = r.1 })

  unfoldable pub pool_balances : State k → Outcome k.bank_keeper.Coins
  unfolding verana_pool_addr
  pool_balances s = ok (k.bank_keeper.get_all_balances s.bank verana_pool_addr)

  -- The yield of one block, from the parameters.
  unfoldable pub per_block_yield : Params k.dec → Outcome k.dec.LegacyDec
  unfolding to_int64
  per_block_yield params =
      elim (k.dec.mul (k.dec.from_int (to_int64 params.trust_deposit_value))
        params.trust_deposit_yield_rate) [
          | ok annual_yield ↦ k.dec.quo annual_yield (k.dec.from_int (pos blocks_per_year))
          | err e ↦ err e
          | panicked ↦ panicked
        ]

  -- The transfer and the rest that it leaves as dust.
  unfoldable pub pay_out : k.dec.LegacyDec → ℤ → k.bank_keeper.Coins → Exec (State k) (Unit {0})
  unfolding send_coins
  pay_out total_amount transfer_amount transfer_coins = do
    send_coins verana_pool_account td_module_name transfer_coins
    remaining_dust ← lift (k.dec.sub total_amount (k.dec.from_int transfer_amount))
    set_dust_amount k remaining_dust

  -- The branch of `SendFundsFromVeranaPool` for at least one micro unit.
  unfoldable pub transfer_yield : k.dec.LegacyDec → Exec (State k) (Unit {0})
  unfolding pay_out pool_balances
  transfer_yield total_amount = do
    transfer_amount ← lift (k.dec.truncate_int total_amount)
    transfer_coins ← lift (k.bank_keeper.new_coins uvna transfer_amount)
    verana_pool_balance ← gets pool_balances
    if not (k.bank_keeper.is_all_gte verana_pool_balance transfer_coins)
        then pure tt
        else pay_out total_amount transfer_amount transfer_coins

  unfoldable pub send_funds_from_verana_pool : Exec (State k) (Unit {0})
  unfolding per_block_yield transfer_yield
  send_funds_from_verana_pool = do
    params ← gets (λ s. k.params.get s.params)
    yield ← lift (per_block_yield params)
    current_dust ← gets (get_dust_amount k)
    total_amount ← lift (k.dec.add current_dust yield)
    if k.dec.gte total_amount (k.dec.from_int (pos 1))
        then transfer_yield total_amount
        else set_dust_amount k total_amount

  unfoldable pub send_funds_back_to_community_pool : Exec (State k) (Unit {0})
  unfolding pool_balances send_coins
  send_funds_back_to_community_pool = do
    verana_pool_balance ← gets pool_balances
    if k.bank_keeper.is_zero verana_pool_balance
        then pure tt
        else send_coins verana_pool_account protocol_pool verana_pool_balance

  unfoldable pub begin_blocker : Exec (State k) (Unit {0})
  begin_blocker = do send_funds_from_verana_pool; send_funds_back_to_community_pool
