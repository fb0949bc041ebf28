-- ===== src/Sdk/Bank.antt =====
-- cosmos-sdk x/bank: coins, balances and transfers.
use veranatest.Prelude.{
  Bool, Bytes, Exec, Outcome, bytes_eq, false, if◌then◌else◌, ok, true, ℕ, ◌+◌, ◌<◌, ◌≡◌, ◌≢◌, ◌≤◌,
}
use veranatest.Prelude.Int.{pos, pos_part, ℤ, ◌≤ℤ◌}

-- The coins left the one address, arrived at the other, and no other balance changed.
pub record Moved {Store Coins : Type 0} (balance : Store → Bytes → Bytes → ℕ)
    (amount_of : Coins → Bytes → ℕ) (from to : Bytes) (c : Coins) (s t : Store) : Type 0 where
  pub sender : (d : Bytes) → balance t from d + amount_of c d ≡ balance s from d
  pub recipient : (d : Bytes) → balance t to d ≡ balance s to d + amount_of c d
  pub others : (a d : Bytes) → a ≢ from → a ≢ to → balance t a d ≡ balance s a d

pub record Bank : Type 1 where
  pub Coins : Type 0
  pub Store : Type 0
  pub amount_of : Coins → Bytes → ℕ
  -- `sdk.NewCoins(sdk.NewCoin(denom, amount))`, which panics for a negative amount
  pub new_coins : Bytes → ℤ → Outcome Coins
  pub is_all_gte : Coins → Coins → Bool
  pub is_zero : Coins → Bool
  -- what an address holds of a denomination
  pub balance : Store → Bytes → Bytes → ℕ
  pub module_address : Bytes → Bytes
  pub get_all_balances : Store → Bytes → Coins
  -- sender's module, recipient's module
  pub send_coins_from_module_to_module : Bytes → Bytes → Coins → Exec Store (Unit {0})
  -- sender's address, recipient's module
  pub send_coins_from_account_to_module : Bytes → Bytes → Coins → Exec Store (Unit {0})
  pub new_coins_ok :
      (denom : Bytes) (amount : ℤ) (c : Coins)
      → new_coins denom amount ≡ ok c
      → (pos 0 ≤ℤ amount)
        × ((d : Bytes) → amount_of c d ≡ (if bytes_eq denom d then pos_part amount else 0))
  pub is_all_gte_ok :
      (a b : Coins) → is_all_gte a b ≡ true → (d : Bytes) → amount_of b d ≤ amount_of a d
  pub is_all_gte_false :
      (a b : Coins) → is_all_gte a b ≡ false → (d : Bytes) × (amount_of a d < amount_of b d)
  pub is_zero_ok : (a : Coins) → is_zero a ≡ true → (d : Bytes) → amount_of a d ≡ 0
  pub get_all_balances_ok :
      (s : Store) (a d : Bytes) → amount_of (get_all_balances s a) d ≡ balance s a d
  pub module_to_module_ok :
      (from to : Bytes) (c : Coins) (s t : Store)
      → send_coins_from_module_to_module from to c s ≡ (ok tt, t)
      → module_address from ≢ module_address to
      → Moved balance amount_of (module_address from) (module_address to) c s t
  pub account_to_module_ok :
      (from to : Bytes) (c : Coins) (s t : Store)
      → send_coins_from_account_to_module from to c s ≡ (ok tt, t)
      → from ≢ module_address to
      → Moved balance amount_of from (module_address to) c s t
