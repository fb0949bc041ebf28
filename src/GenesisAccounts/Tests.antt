-- ===== src/GenesisAccounts/Tests.antt =====
-- A vesting account without a module, and the theorem there.
use veranatest.Prelude.{
  Bytes, Error, [], ascii, err, if◌then◌else◌, is_empty, ok, ℕ, ◌==◌, ◌↔◌, ◌≡◌,
}
use veranatest.Prelude.Int.{pos}
use veranatest.GenesisAccounts.{
  AuthTypes, GenesisAccount, IsValid, validate_account, validate_account_iff,
}

abbrev plain_auth : AuthTypes
plain_auth = record {
  Coins = ℕ;
  BaseAccount = Bytes;
  is_zero = λ c. c == 0;
  validate_base = λ b. if is_empty b then err (Error.foreign 1) else ok tt;
  validate_module_account =
      λ b name permissions. if is_empty b then err (Error.foreign 1) else ok tt;
}

abbrev vesting_account : GenesisAccount plain_auth
vesting_account = record {
  base_account = ascii "x";
  original_vesting = 10;
  delegated_free = 0;
  delegated_vesting = 0;
  start_time = pos 3;
  end_time = pos 8;
  module_name = [];
  module_permissions = [];
}

validate_account_iff_example :
    (validate_account plain_auth vesting_account ≡ ok tt) ↔ IsValid plain_auth vesting_account
validate_account_iff_example = validate_account_iff plain_auth vesting_account
