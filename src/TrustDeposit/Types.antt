-- ===== src/TrustDeposit/Types.antt =====
-- The data of x/td: types/params.pb.go, types/types.pb.go, types/tx.pb.go, types/genesis.pb.go,
-- types/params.go, types/keys.go, and the keeper's fields and accessors of the dust
-- (keeper/keeper.go).
use veranatest.Prelude.{Bytes, Error, Exec, Outcome, ascii, err, gets, lift, ok, panicked, ℕ, ◌>>=◌}
use veranatest.Prelude.Int.{ℤ}
use veranatest.Sdk.Collections.{Item}
use veranatest.Sdk.Addresses.{AddressCodec}
use veranatest.Sdk.Decimal.{Decimals}
use veranatest.Sdk.Bank.{Bank}

pub record Params (dec : Decimals) : Type 0 where
  pub trust_deposit_share_value : dec.LegacyDec
  -- a uint64
  pub trust_deposit_value : ℕ
  pub trust_deposit_yield_rate : dec.LegacyDec

pub record DustAmount (dec : Decimals) : Type 0 where
  pub dust : dec.LegacyDec

pub record GenesisState (dec : Decimals) : Type 0 where
  pub params : Params dec

pub record MsgFundModule : Type 0 where
  pub creator : Bytes
  pub module_name : Bytes
  -- an int64
  pub amount : ℤ

pub record MsgUpdateParams (dec : Decimals) : Type 0 where
  pub authority : Bytes
  pub params : Params dec

pub record Keeper : Type 1 where
  pub dec : Decimals
  pub address_codec : AddressCodec
  pub authority : Bytes
  pub params : Item (Params dec)
  pub dust_amount : Item (DustAmount dec)
  pub bank_keeper : Bank

-- What a call can change: the module's two items and the bank.
pub record State (k : Keeper) : Type 0 where
  pub params : k.params.Store
  pub dust_amount : k.dust_amount.Store
  pub bank : k.bank_keeper.Store

abbrev pub td_module_name : Bytes
td_module_name = ascii "td"

abbrev pub verana_pool_account : Bytes
verana_pool_account = ascii "verana_pool"

abbrev pub default_trust_deposit_value : ℕ
default_trust_deposit_value = 0

-- `Params.Validate`, with its three checks, which test nothing.
unfoldable pub validate_share_value : (dec : Decimals) → dec.LegacyDec → Outcome (Unit {0})
validate_share_value dec v = ok tt

unfoldable pub validate_value : ℕ → Outcome (Unit {0})
validate_value v = ok tt

unfoldable pub validate_yield_rate : (dec : Decimals) → dec.LegacyDec → Outcome (Unit {0})
validate_yield_rate dec v = ok tt

unfoldable pub validate_params : (dec : Decimals) → Params dec → Outcome (Unit {0})
unfolding validate_share_value validate_value validate_yield_rate
validate_params dec p = elim (validate_share_value dec p.trust_deposit_share_value) [
  | ok u ↦ elim (validate_value p.trust_deposit_value) [
    | ok u ↦ elim (validate_yield_rate dec p.trust_deposit_yield_rate) [
      | ok u ↦ ok tt
      | err e ↦ err e
      | panicked ↦ panicked
    ]
    | err e ↦ err e
    | panicked ↦ panicked
  ]
  | err e ↦ err e
  | panicked ↦ panicked
]

module _ (k : Keeper) where
  dust_or_error : Error → Outcome k.dec.LegacyDec
  dust_or_error Error.not_found = ok k.dec.zero_dec
  dust_or_error e = err e

  -- `GetDustAmount`: zero if it was never set.
  unfoldable pub get_dust_amount : State k → Outcome k.dec.LegacyDec
  unfolding dust_or_error
  get_dust_amount s = elim (k.dust_amount.get s.dust_amount) [
    | ok d ↦ ok d.dust
    | err e ↦ dust_or_error e
    | panicked ↦ panicked
  ]

  unfoldable pub set_dust_amount : k.dec.LegacyDec → Exec (State k) (Unit {0})
  set_dust_amount amount s = elim (k.dust_amount.set s.dust_amount (record { dust = amount })) [
    | ok t ↦ (ok tt, record s { dust_amount = t })
    | err e ↦ (err e, s)
    | panicked ↦ (panicked, s)
  ]

  unfoldable pub add_to_dust_amount : k.dec.LegacyDec → Exec (State k) (Unit {0})
  unfolding get_dust_amount set_dust_amount
  add_to_dust_amount amount = do
    current_dust ← gets get_dust_amount
    new_dust ← lift (k.dec.add current_dust amount)
    set_dust_amount new_dust

  unfoldable pub reset_dust_amount : Exec (State k) (Unit {0})
  unfolding set_dust_amount
  reset_dust_amount = set_dust_amount k.dec.zero_dec

  -- `k.Params.Set(ctx, p)`
  unfoldable pub set_params : Params k.dec → Exec (State k) (Unit {0})
  set_params p s = elim (k.params.set s.params p) [
    | ok t ↦ (ok tt, record s { params = t })
    | err e ↦ (err e, s)
    | panicked ↦ (panicked, s)
  ]
