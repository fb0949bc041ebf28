-- ===== src/Testnets/MultiNode/Supply.antt =====
-- The supply at genesis is the sum of the balances.
use veranatest.Testnets.MultiNode.Genesis.{add_supply, fund_genesis}
use veranatest.Prelude.{Bytes, List, [], arith, ℕ, ◌+◌, ◌∷◌, ◌≡◌}
use veranatest.Sdk.Nodes.{Balance, BankGenesis, NodeEnv}

module _ (e : NodeEnv) where
  -- What the balances hold of a denomination, by the amounts of coins.
  abbrev pub total : (e.Coins → Bytes → ℕ) → List (Balance e.Coins) → Bytes → ℕ
  total amount_of [] d = 0
  total amount_of (bal ∷ balances) d = amount_of bal.coins d + total amount_of balances d

  supply-total :
      (amount_of : e.Coins → Bytes → ℕ)
      → ((a b : e.Coins) (d : Bytes)
          → amount_of (e.add_coins a b) d ≡ amount_of a d + amount_of b d)
      → (supply : e.Coins) (balances : List (Balance e.Coins)) (d : Bytes)
      → amount_of (add_supply e supply balances) d ≡ amount_of supply d + total amount_of balances d
  unfolding add_supply
  supply-total amount_of add supply [] d = omega arith
  supply-total amount_of add supply (bal ∷ balances) d =
      let rest = supply-total amount_of add (e.add_coins supply bal.coins) balances d in
      omega (arith, rest, add supply bal.coins d)

  -- The supply that is written is what the genesis state has and the sum of the balances that are
  -- written, in every denomination.
  pub fund_genesis-total :
      (amount_of : e.Coins → Bytes → ℕ)
      → ((a b : e.Coins) (d : Bytes)
          → amount_of (e.add_coins a b) d ≡ amount_of a d + amount_of b d)
      → (gen_balances : List (Balance e.Coins)) (bank : BankGenesis e.Coins e.Rest) (d : Bytes)
      → let funded = fund_genesis e gen_balances bank in
        amount_of funded.supply d ≡ amount_of bank.supply d + total amount_of funded.balances d
  unfolding fund_genesis
  fund_genesis-total amount_of add gen_balances bank d =
      supply-total amount_of add bank.supply (e.sanitize_genesis_balances gen_balances) d
