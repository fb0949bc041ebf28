-- ===== src/Testnets/InPlace/Tests.antt =====
-- A test network made of a chain with two validators, and the theorems there.
use veranatest.Export.{must}
use veranatest.Sdk.Instances.{find_value}
use veranatest.Sdk.Instances.Ledgers.{Ledger, erase, ledger_keepers, matching, send_balance}
use veranatest.Sdk.Instances.Stakings.{text_bytes}
use veranatest.Testnets.InPlace.{
  AppOptions, Value, delete_keys, fund_accounts, hex_bytes, keys_under, new_testnet_app, pub_key,
  remove_validators, text,
}
use veranatest.Testnets.InPlace.Funding.{names_account, new_testnet_app_stops, times_named}
use veranatest.Testnets.InPlace.Removal.{is_validator_key, remove_validators_ok}
use veranatest.Testnets.Texts.{split_commas}
use veranatest.Prelude.{
  Bytes, Error, List, Listed, [], ascii, bytes_eq, err, gets, has_prefix, if◌then◌else◌, inl, lift,
  none, ok, pure, refl, ◌>>=◌, ◌∷◌, ◌≡◌, ◌≢◌,
}

abbrev chain : Ledger
chain = record {
  pairs =
      (ascii "Vold", ascii "old")
      ∷ (ascii "Pold", ascii "old")
      ∷ (ascii "Q1", ascii "old")
      ∷ (ascii "D1", ascii "x")
      ∷ [];
  balances = λ a. 5;
}

abbrev left_over : Ledger
left_over = record chain { pairs = (ascii "D1", ascii "x") ∷ [] }

abbrev options : Bytes → AppOptions
options accounts = record {
  new_val_addr = hex_bytes (ascii "cons");
  user_pub_key = pub_key (ascii "key");
  new_op_addr = text (ascii "new");
  trigger_testnet_upgrade = text [];
  accounts_to_fund = text accounts;
  home = text (ascii "home");
}

abbrev to_string : Value → Bytes
to_string (text b) = b
to_string _ = []

run_remove : remove_validators ledger_keepers chain ≡ (ok tt, left_over)
unfolding remove_validators delete_keys keys_under must gets ◌>>=◌ matching erase has_prefix
    bytes_eq
run_remove = refl

remove_validators_ok_example : find_value left_over.pairs (ascii "Vold") ≡ (
    if is_validator_key ledger_keepers (ascii "Vold")
    then none
    else find_value chain.pairs (ascii "Vold"))
remove_validators_ok_example =
    remove_validators_ok ledger_keepers chain left_over run_remove (ascii "Vold")

abbrev two_accounts : List Bytes
two_accounts = ascii "a" ∷ ascii "b" ∷ ascii "a" ∷ []

funded : Ledger
unfolding fund_accounts must lift ◌>>=◌ pure send_balance text_bytes
funded = (fund_accounts ledger_keepers 10 two_accounts chain).1

run_fund : fund_accounts ledger_keepers 10 two_accounts chain ≡ (ok tt, funded)
unfolding funded fund_accounts must lift ◌>>=◌ pure send_balance text_bytes bytes_eq
run_fund = refl

no_mint : times_named ledger_keepers (ascii "mint") two_accounts ≡ 0
unfolding times_named names_account text_bytes bytes_eq
no_mint = refl

one_word : Listed [] (split_commas [])
unfolding split_commas
one_word = inl refl

no_address : text_bytes [] ≡ err (Error.foreign 1)
unfolding text_bytes
no_address = refl

new_testnet_app_stops_example :
    new_testnet_app ledger_keepers to_string (options []) chain ≢ (ok tt, left_over)
new_testnet_app_stops_example =
    new_testnet_app_stops ledger_keepers to_string (options []) [] (Error.foreign 1) chain left_over
      one_word no_address
