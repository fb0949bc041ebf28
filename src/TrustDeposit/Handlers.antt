-- ===== src/TrustDeposit/Handlers.antt =====
-- The messages of x/td and its genesis: keeper/msg_server_fund_module.go,
-- keeper/msg_update_params.go, keeper/genesis.go, types/genesis.go and types/params.go.
use veranatest.Sdk.Addresses.{address_or_nil}
use veranatest.Sdk.Decimal.{Decimals}
use veranatest.Prelude.{
  Bytes, Error, Exec, Outcome, bytes_eq, err, gets, guard, if◌then◌else◌, lift, ok, panicked, pure,
  suc, ℕ, ◌%◌, ◌+◌, ◌-◌, ◌>>=◌, ◌>>◌, ◌^◌,
}
use veranatest.Prelude.Int.{negsuc, pos, ℤ}
use veranatest.TrustDeposit.Funds.{uvna}
use veranatest.TrustDeposit.Types.{
  GenesisState, Keeper, MsgFundModule, MsgUpdateParams, Params, State, set_params, td_module_name,
  validate_params,
}

-- `uint64(x)` of an int64.
unfoldable pub to_uint64 : ℤ → ℕ
to_uint64 (pos n) = n
to_uint64 (negsuc n) = 2 ^ 64 - suc n

-- `uint64` addition.
unfoldable pub add_uint64 : ℕ → ℕ → ℕ
add_uint64 a b = (a + b) % 2 ^ 64

-- The zero value of `Params`.
unfoldable pub nil_params : (dec : Decimals) → Params dec
nil_params dec = record {
  trust_deposit_share_value = dec.nil_dec;
  trust_deposit_value = 0;
  trust_deposit_yield_rate = dec.nil_dec;
}

module _ (k : Keeper) where
  unfoldable pub send_from_account : Bytes → Bytes → k.bank_keeper.Coins → Exec (State k) (Unit {0})
  send_from_account sender to coins s =
      let r = k.bank_keeper.send_coins_from_account_to_module sender to coins s.bank in
      (r.0, record s { bank = r.1 })

  -- `params, _ := k.Params.Get(ctx)`: an error leaves the zero value.
  unfoldable pub params_or_nil : State k → Outcome (Params k.dec)
  unfolding nil_params
  params_or_nil s = elim (k.params.get s.params) [
    | ok p ↦ ok p
    | err e ↦ ok (nil_params k.dec)
    | panicked ↦ panicked
  ]

  unfoldable pub fund_module : MsgFundModule → Exec (State k) (Unit {0})
  unfolding send_from_account params_or_nil to_uint64 add_uint64
  fund_module msg = do
    creator ← lift (k.address_codec.string_to_bytes msg.creator)
    coins ← lift (k.bank_keeper.new_coins uvna msg.amount)
    send_from_account (address_or_nil (k.address_codec.acc_address_from_bech32 msg.creator))
        msg.module_name coins
    if bytes_eq msg.module_name td_module_name
        then (do
          params ← gets params_or_nil
          set_params k (record params {
            trust_deposit_value = add_uint64 params.trust_deposit_value (to_uint64 msg.amount);
          }))
        else pure tt

  unfoldable pub update_params : MsgUpdateParams k.dec → Exec (State k) (Unit {0})
  unfolding validate_params set_params
  update_params req = do
    authority ← lift (k.address_codec.string_to_bytes req.authority)
    guard (bytes_eq k.authority authority) Error.invalid_signer
    lift (validate_params k.dec req.params)
    set_params k req.params

  unfoldable pub init_genesis : GenesisState k.dec → Exec (State k) (Unit {0})
  unfolding set_params
  init_genesis gen_state = set_params k gen_state.params

  unfoldable pub export_genesis : State k → Outcome (GenesisState k.dec)
  export_genesis s = elim (k.params.get s.params) [
    | ok p ↦ ok (record { params = p })
    | err e ↦ err e
    | panicked ↦ panicked
  ]
