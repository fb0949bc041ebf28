-- ===== src/App/Tests.antt =====
-- The app's accounts with the names that the SDK gives, and the theorem there.
use veranatest.Sdk.Instances.Naming.{sdk_names}
use veranatest.App.Blocked.{blocked_addresses_lem}
use veranatest.App.Accounts.{blocked_addresses, get_macc_perms, map_entry}
use veranatest.App.Config.{block_acc_addrs}
use veranatest.Prelude.{Listed, ascii, bytes_eq, none, refl, some, true, ◌↔◌, ◌≡◌, ◌≢◌}

-- The governance account and the pool of the trust deposit receive funds.
run_gov : map_entry (blocked_addresses sdk_names) (ascii "gov") ≡ none
unfolding map_entry blocked_addresses bytes_eq block_acc_addrs
run_gov = refl

run_pool : map_entry (blocked_addresses sdk_names) (ascii "verana_pool") ≡ none
unfolding map_entry blocked_addresses bytes_eq block_acc_addrs
run_pool = refl

blocked_addresses_lem_example :
    ((map_entry (blocked_addresses sdk_names) (ascii "mint") ≡ some true)
      ↔ Listed (ascii "mint") (block_acc_addrs sdk_names))
    × (Listed (ascii "mint") (block_acc_addrs sdk_names)
        → map_entry (get_macc_perms sdk_names) (ascii "mint") ≢ none)
blocked_addresses_lem_example = blocked_addresses_lem sdk_names (ascii "mint")
