-- ===== src/TrustDeposit/Tests.antt =====
-- Runs of x/td on small states, and its theorems there.
use veranatest.TrustDeposit.Conservation.{begin_blocker_conserves}
use veranatest.TrustDeposit.Updates.{Updated, update_params_lem}
use veranatest.Sdk.Decimal.{Decimals, precision}
use veranatest.TrustDeposit.Dust.{
  HasFractionDust, HasSaneParams, begin_blocker-HasFractionDust, sane-IsNonneg,
}
use veranatest.TrustDeposit.Handlers.{export_genesis, fund_module, init_genesis, update_params}
use veranatest.Prelude.{
  Bytes, Outcome, arith, ascii, bytes_eq, bytes_eq_iff, false, gets, guard, if◌then◌else◌, lift,
  none, ok, ok_injective, pure, refl, some, sym, ℕ, ◌*◌, ◌+◌, ◌>>=◌, ◌≡◌, ◌≢◌, ◌⊎◌,
}
use veranatest.Prelude.Int.{pos, ◌+ℤ◌, ◌-ℤ◌}
use veranatest.Sdk.Addresses.{AddressCodec}
use veranatest.Sdk.Instances.{item_get, option_item}
use veranatest.Sdk.Instances.Numbers.{
  atomic_decimals, coins_of, divided, held, one_denomination, scaled, times, transfer, whole,
}
use veranatest.TrustDeposit.Types.{
  DustAmount, Keeper, MsgFundModule, MsgUpdateParams, Params, State, get_dust_amount,
  set_dust_amount, set_params, td_module_name, verana_pool_account,
}
use veranatest.TrustDeposit.Funds.{
  begin_blocker, blocks_per_year, protocol_pool, send_funds_back_to_community_pool,
  send_funds_from_verana_pool, uvna, verana_pool_addr, verana_pool_text,
}
use veranatest.TrustDeposit.Blocks.{
  Accounts, BlockStarted, begin_blocker_ok, pool_holds, protocol_holds, td_holds,
}
use veranatest.TrustDeposit.Messages.{Funded, fund_module_ok}
use veranatest.TrustDeposit.Settlement.{IsNonneg, Yielded, send_funds_ok}

-- The text of the pool's address stands for its module's account.
resolve : Bytes → Outcome Bytes
resolve a = ok (if bytes_eq a verana_pool_text then verana_pool_account else a)

abbrev codec : AddressCodec
codec = record {
  string_to_bytes = resolve;
  bytes_to_string = resolve;
  val_address_from_bech32 = resolve;
  acc_address_from_bech32 = resolve;
  equals = bytes_eq;
  equals_iff = bytes_eq_iff;
}

abbrev dec : Decimals
dec = atomic_decimals

abbrev keeper : Keeper
keeper = record {
  dec = dec;
  address_codec = codec;
  authority = ascii "gov";
  params = option_item (Params dec);
  dust_amount = option_item (DustAmount dec);
  bank_keeper = one_denomination;
}

-- A deposit of 100 years' blocks at the rate 0.025: the yield of a block is 2.5 units.
abbrev deposit : Params dec
deposit = record {
  trust_deposit_share_value = pos precision;
  trust_deposit_value = 100 * blocks_per_year;
  trust_deposit_yield_rate = pos 25_000_000_000_000_000;
}

balances : ℕ → ℕ → ℕ → Bytes → ℕ
balances pool td protocol a =
    if bytes_eq verana_pool_account a
    then pool
    else if bytes_eq td_module_name a
    then td
    else if bytes_eq protocol_pool a
    then protocol
    else if bytes_eq (ascii "eve") a
    then 40
    else 0

abbrev start : State keeper
start = record { params = some deposit; dust_amount = none; bank = balances 10 0 0 }

abbrev started : State keeper
started = (send_funds_from_verana_pool keeper start).1

abbrev begun : State keeper
begun = (begin_blocker keeper start).1

run_send : send_funds_from_verana_pool keeper start ≡ (ok tt, started)
unfolding send_funds_from_verana_pool ◌>>=◌ lift gets pure get_dust_amount set_dust_amount item_get
    times divided whole scaled ◌+ℤ◌ ◌-ℤ◌ coins_of resolve balances bytes_eq transfer
run_send = refl

run_begin : begin_blocker keeper start ≡ (ok tt, begun)
unfolding begin_blocker send_funds_from_verana_pool send_funds_back_to_community_pool ◌>>=◌ lift
    gets pure get_dust_amount set_dust_amount item_get times divided whole scaled ◌+ℤ◌ ◌-ℤ◌ coins_of
    resolve balances bytes_eq transfer
run_begin = refl

-- Two whole units went to the module, the other eight to the community, and half a unit is dust.
begun_holds :
    (td_holds keeper begun uvna ≡ 2)
    × (protocol_holds keeper begun uvna ≡ 8)
    × (begun.dust_amount ≡ some (record { dust = pos 500_000_000_000_000_000 }))
unfolding begin_blocker send_funds_from_verana_pool send_funds_back_to_community_pool ◌>>=◌ lift
    gets pure get_dust_amount set_dust_amount item_get times divided whole scaled ◌+ℤ◌ ◌-ℤ◌ coins_of
    resolve balances bytes_eq transfer held
begun_holds = (refl, refl, refl)

differ : (a b : Bytes) → bytes_eq a b ≡ false → a ≢ b
differ a b h e = cc ((bytes_eq_iff a b).1 e)

accounts : Accounts keeper
unfolding verana_pool_addr resolve bytes_eq
accounts = record {
  pool_is = refl;
  pool_ne_td = differ verana_pool_account td_module_name refl;
  pool_ne_protocol = differ verana_pool_account protocol_pool refl;
  td_ne_protocol = differ td_module_name protocol_pool refl;
}

start_dust : HasFractionDust keeper start
unfolding get_dust_amount item_get
start_dust = record { fraction = λ d h. ground arith }

start_params : (p : Params dec) → keeper.params.get start.params ≡ ok p → p ≡ deposit
unfolding item_get
start_params p h = sym (ok_injective h)

start_sane : HasSaneParams keeper start
start_sane = record {
  value_fits = λ p h. rw (start_params p h) (omega arith);
  rate_nonneg = λ p h. rw (start_params p h) (omega arith);
}

start-IsNonneg : IsNonneg keeper start
start-IsNonneg = sane-IsNonneg keeper start start_dust start_sane

send_funds_ok_example : Yielded keeper start started
send_funds_ok_example =
    send_funds_ok keeper start started start-IsNonneg accounts.pool_ne_td run_send

begin_blocker_ok_example : BlockStarted keeper start begun
begin_blocker_ok_example = begin_blocker_ok keeper start begun start-IsNonneg accounts run_begin

begin_blocker_conserves_example :
    pool_holds keeper begun uvna + td_holds keeper begun uvna + protocol_holds keeper begun uvna
    ≡ pool_holds keeper start uvna + td_holds keeper start uvna + protocol_holds keeper start uvna
begin_blocker_conserves_example = begin_blocker_conserves keeper start begun accounts run_begin uvna

begin_blocker-HasFractionDust_example :
    HasFractionDust keeper begun × HasSaneParams keeper begun × (begun.params ≡ start.params)
begin_blocker-HasFractionDust_example =
    begin_blocker-HasFractionDust keeper start begun start_dust start_sane accounts run_begin

abbrev funding : MsgFundModule
funding = record { creator = ascii "eve"; module_name = ascii "td"; amount = pos 30 }

abbrev funded : State keeper
funded = (fund_module keeper funding start).1

run_fund : fund_module keeper funding start ≡ (ok tt, funded)
unfolding fund_module ◌>>=◌ lift gets pure set_params item_get coins_of resolve balances bytes_eq
    transfer
run_fund = refl

fund_module_ok_example : Funded keeper funding start funded
fund_module_ok_example = fund_module_ok keeper funding start funded run_fund

abbrev request : MsgUpdateParams dec
request = record { authority = ascii "gov"; params = record deposit { trust_deposit_value = 5 } }

abbrev updated : State keeper
updated = record start { params = some request.params }

run_update : update_params keeper request start ≡ (ok tt, updated)
unfolding update_params ◌>>=◌ lift guard set_params bytes_eq resolve
run_update = refl

abbrev accepted : Outcome (Unit {0})
accepted = ok tt

update_params_lem_example :
    ((accepted ≡ accepted) × Updated keeper request start updated)
    ⊎ ((accepted ≢ accepted) × (updated ≡ start))
update_params_lem_example = update_params_lem keeper request start updated (ok tt) run_update

abbrev fresh : State keeper
fresh = record { params = none; dust_amount = none; bank = balances 0 0 0 }

abbrev reloaded : State keeper
reloaded = record fresh { params = some deposit }

run_export : export_genesis keeper start ≡ ok (record { params = deposit })
unfolding export_genesis item_get
run_export = refl

run_init : init_genesis keeper (record { params = deposit }) fresh ≡ (ok tt, reloaded)
unfolding init_genesis
run_init = refl
