-- ===== src/Testnets/MultiNode/Flags.antt =====
-- The flags of cmd/veranatestd/cmd/testnet_multi_node.go.
use veranatest.Testnets.MultiNode.Ports.{itoa, rpc_port}
use veranatest.Testnets.Texts.{split_commas}
use veranatest.Prelude.{
  Bytes, Exec, List, [], ascii, if◌then◌else◌, is_empty, lift, none, pure, some, suc, zero, ℕ, ◌+◌,
  ◌>>=◌, ◌∷◌,
}
use veranatest.Prelude.Int.{negsuc, pos, ℤ}
use veranatest.Sdk.Nodes.{FilePath, NodeEnv}

-- `initArgs`. The two maps have the keys from 0 on, and are lists.
pub record InitArgs (Coin : Type 0) : Type 0 where
  pub algo : Bytes
  pub chain_id : Bytes
  pub keyring_backend : Bytes
  pub min_gas_prices : Bytes
  pub node_dir_prefix : Bytes
  pub num_validators : ℤ
  pub output_dir : FilePath
  pub starting_ip_address : Bytes
  pub validators_stakes_amount : List Coin
  pub ports : List Bytes

-- The texts of the flags. A flag of the command is always there, so the reads give no error.
pub record FlagTexts : Type 0 where
  pub algo : Bytes
  pub chain_id : Bytes
  pub keyring_backend : Bytes
  pub min_gas_prices : Bytes
  pub node_dir_prefix : Bytes
  pub num_validators : ℤ
  pub output_dir : FilePath
  pub starting_ip_address : Bytes
  pub validators_stake_amount : Bytes
  pub list_ports : Bytes

-- The loop that gives the nodes from `i` on their ports.
unfoldable pub default_ports : ℕ → ℕ → List Bytes
default_ports zero i = []
default_ports (suc n) i = itoa (rpc_port i) ∷ default_ports n (i + 1)

-- A negative number of rounds is none.
abbrev pub rounds : ℤ → ℕ
rounds (pos n) = n
rounds (negsuc n) = 0

unfoldable pub read_ports : Bytes → ℤ → List Bytes
unfolding default_ports
read_ports s num_validators =
    if is_empty s then default_ports (rounds num_validators) 0 else split_commas s

abbrev pub bond_denom : Bytes
bond_denom = ascii "stake"

module _ (e : NodeEnv) where
  -- The loop over the amounts: a text that is no number is skipped.
  unfoldable pub read_stakes : List Bytes → Exec (Unit {0}) (List e.Coin)
  read_stakes [] = pure []
  read_stakes (amount ∷ amounts) = elim (e.new_int_from_string amount) [
    | none ↦ read_stakes amounts
    | some a ↦ do
      coin ← lift (e.new_coin bond_denom a)
      coins ← read_stakes amounts
      pure (coin ∷ coins)
  ]

  -- The body of `RunE` before `initTestnetFiles`.
  unfoldable pub read_args : FlagTexts → Exec (Unit {0}) (InitArgs e.Coin)
  unfolding read_stakes read_ports split_commas
  read_args texts = do
    stakes ← read_stakes (split_commas texts.validators_stake_amount)
    pure (record {
      algo = texts.algo;
      chain_id = texts.chain_id;
      keyring_backend = texts.keyring_backend;
      min_gas_prices = texts.min_gas_prices;
      node_dir_prefix = texts.node_dir_prefix;
      num_validators = texts.num_validators;
      output_dir = texts.output_dir;
      starting_ip_address = texts.starting_ip_address;
      validators_stakes_amount = stakes;
      ports = read_ports texts.list_ports texts.num_validators;
    })
