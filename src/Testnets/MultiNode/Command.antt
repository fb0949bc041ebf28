-- ===== src/Testnets/MultiNode/Command.antt =====
-- `initTestnetFiles` and the command `multi-node`.
use veranatest.Testnets.MultiNode.Files.{copy_gentxs}
use veranatest.Testnets.MultiNode.Flags.{FlagTexts, InitArgs, bond_denom, read_args}
use veranatest.Testnets.MultiNode.Genesis.{collect_gen_files, init_gen_files}
use veranatest.Testnets.MultiNode.Nodes.{Building, in_world, init_nodes}
use veranatest.Prelude.{
  Bytes, Exec, [], ascii, false, if◌then◌else◌, is_empty, length, lift, ok, panicked, pure, suc,
  zero, ℕ, ◌++◌, ◌>>=◌, ◌>>◌, ◌∷◌,
}
use veranatest.Prelude.Int.{negsuc, pos}
use veranatest.Sdk.Nodes.{NodeConfig, NodeEnv, ServerConfig}

-- The letters of `generateRandomString`.
abbrev pub charset : Bytes
charset = ascii "abcdefghijklmnopqrstuvwxyz0123456789"

-- `charset[i]`, for numbers below its length.
unfoldable pub byte_at : Bytes → ℕ → ℕ
byte_at [] i = 0
byte_at (b ∷ bytes) zero = b
byte_at (b ∷ bytes) (suc i) = byte_at bytes i

module _ (e : NodeEnv) where
  -- `generateRandomString`; `seededRand.Intn` gives the numbers.
  unfoldable pub generate_random_string : ℕ → Exec e.World Bytes
  unfolding byte_at
  generate_random_string zero = pure []
  generate_random_string (suc n) = do
    k ← (λ w. let r = e.random (length charset) w in (ok r.0, r.1))
    rest ← generate_random_string n
    pure (byte_at charset k ∷ rest)

  -- The server's configuration that all nodes start from.
  unfoldable pub app_config : Bytes → ServerConfig e.Rest
  app_config min_gas_prices =
      let given = record e.default_config { min_gas_prices = min_gas_prices; api_enable = false } in
      record given {
        min_gas_prices = ascii "0.0001" ++ bond_denom;
        enable_hostname_label = false;
        telemetry_enabled = false;
        prometheus_retention_time = 0;
      }

  unfoldable pub first_building : InitArgs e.Coin → NodeConfig e.Rest → e.World → Building e
  unfolding app_config
  first_building args node_config w = record {
    world = w;
    node_config = node_config;
    app_config = app_config args.min_gas_prices;
    gen_accounts = [];
    gen_balances = [];
    gen_files = [];
    persistent_peers = [];
    gentx_files = [];
    node_ids = [];
    val_pub_keys = [];
  }

  -- The steps after the chain has an id, for `n` nodes.
  unfoldable pub build : InitArgs e.Coin → ℕ → Exec (Building e) (Unit {0})
  unfolding init_nodes in_world init_gen_files copy_gentxs collect_gen_files
  build args n = do
    init_nodes e args n 0
    (λ s. in_world e (init_gen_files e args.chain_id s.gen_accounts s.gen_balances s.gen_files n) s)
    (λ s. in_world e (copy_gentxs e args s.gentx_files n 0) s)
    (λ s. collect_gen_files e args s.persistent_peers n s)

  -- `args.chainID`, made up where it is empty.
  unfoldable pub with_chain_id : InitArgs e.Coin → Exec e.World (InitArgs e.Coin)
  unfolding generate_random_string
  with_chain_id args =
      if is_empty args.chain_id
      then (do
        name ← generate_random_string 6
        pure (record args { chain_id = ascii "chain-" ++ name }))
      else pure args

  -- `initTestnetFiles`; `make` panics for a negative number of nodes.
  unfoldable pub init_testnet_files : NodeConfig e.Rest → InitArgs e.Coin → Exec e.World (Unit {0})
  unfolding with_chain_id build first_building
  init_testnet_files node_config args = do
    named ← with_chain_id args
    elim named.num_validators [
      | pos n ↦ λ w. let r = build named n (first_building named node_config w) in (r.0, r.1.world)
      | negsuc n ↦ λ w. (panicked, w)
    ]

  -- The command once the flags are read.
  unfoldable pub multi_node : NodeConfig e.Rest → FlagTexts → Exec e.World (Unit {0})
  unfolding read_args init_testnet_files
  multi_node node_config texts = do
    args ← lift (read_args e texts tt).0
    init_testnet_files node_config args
