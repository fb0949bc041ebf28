-- ===== src/App/Accounts.antt =====
-- app/app.go: the accounts of the modules, `GetMaccPerms` and `BlockedAddresses`. A Go map is a list
-- of its entries, the newest of a key first.
use veranatest.App.Config.{ModuleAccountPermission, block_acc_addrs, module_acc_perms}
use veranatest.Sdk.Modules.{Names}
use veranatest.Prelude.{
  Bool, Bytes, List, Option, [], bytes_eq, if◌then◌else◌, none, some, true, ◌∷◌,
}

-- `m[key]`, `none` for a missing key.
unfoldable pub map_entry : {V : Type 0} → List (Bytes × V) → Bytes → Option V
map_entry [] key = none
map_entry ((k, v) ∷ m) key = let rest = map_entry m key in if bytes_eq k key then some v else rest

-- The loop of `GetMaccPerms`.
unfoldable pub put_perms :
    List ModuleAccountPermission → List (Bytes × List Bytes) → List (Bytes × List Bytes)
put_perms [] dup = dup
put_perms (perms ∷ rest) dup = put_perms rest ((perms.account, perms.permissions) ∷ dup)

-- A loop of `BlockedAddresses`.
unfoldable pub put_blocked : List Bytes → List (Bytes × Bool) → List (Bytes × Bool)
put_blocked [] result = result
put_blocked (addr ∷ rest) result = put_blocked rest ((addr, true) ∷ result)

-- The keys of a map; one that was set twice stands here twice.
unfoldable pub map_keys : {V : Type 0} → List (Bytes × V) → List Bytes
map_keys [] = []
map_keys ((k, v) ∷ m) = k ∷ map_keys m

-- The two branches of `BlockedAddresses`, for any list of blocked accounts.
unfoldable pub blocked_of : List Bytes → List (Bytes × List Bytes) → List (Bytes × Bool)
unfolding put_blocked map_keys
blocked_of [] perms = put_blocked (map_keys perms) []
blocked_of (addr ∷ addrs) perms = put_blocked (addr ∷ addrs) []

module _ (n : Names) where
  unfoldable pub get_macc_perms : List (Bytes × List Bytes)
  unfolding put_perms
  get_macc_perms = put_perms (module_acc_perms n) []

  unfoldable pub blocked_addresses : List (Bytes × Bool)
  unfolding blocked_of
  blocked_addresses = blocked_of (block_acc_addrs n) get_macc_perms
