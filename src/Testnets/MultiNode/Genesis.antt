-- ===== src/Testnets/MultiNode/Genesis.antt =====
-- The genesis files of the nodes: `initGenFiles` and `collectGenFiles`.
use veranatest.Testnets.MultiNode.Flags.{InitArgs}
use veranatest.Testnets.MultiNode.Nodes.{
  Building, gentxs_dir, in_world, node_dir, node_dir_name, port_at, reads_world, writes,
}
use veranatest.Testnets.MultiNode.Ports.{itoa, p2p_port, prometheus_port, proxy_port}
use veranatest.Prelude.{
  Bytes, Exec, List, Option, [], ascii, lift, none, panicked, pure, some, suc, true, zero, ℕ, ◌++◌,
  ◌+◌, ◌>>=◌, ◌>>◌, ◌∷◌,
}
use veranatest.Sdk.Nodes.{Balance, BankGenesis, FilePath, NodeConfig, NodeEnv}

module _ (e : NodeEnv) where
  -- The loop that adds the balances to the supply.
  unfoldable pub add_supply : e.Coins → List (Balance e.Coins) → e.Coins
  add_supply supply [] = supply
  add_supply supply (bal ∷ balances) = add_supply (e.add_coins supply bal.coins) balances

  unfoldable pub fund_genesis :
      List (Balance e.Coins) → BankGenesis e.Coins e.Rest → BankGenesis e.Coins e.Rest
  unfolding add_supply
  fund_genesis gen_balances bank = record bank {
    balances = e.sanitize_genesis_balances gen_balances;
    supply = add_supply bank.supply (e.sanitize_genesis_balances gen_balances);
  }

  -- `genFiles[i]` for each node; there is a file for each node, or the index panics.
  unfoldable pub save_files : Bytes → Bytes → ℕ → List FilePath → Exec e.World (Unit {0})
  save_files chain_id app_state zero files = pure tt
  save_files chain_id app_state (suc n) [] = λ s. (panicked, s)
  save_files chain_id app_state (suc n) (file ∷ files) =
      e.save_as chain_id app_state file >> save_files chain_id app_state n files

  -- `initGenFiles`
  unfoldable pub init_gen_files :
      Bytes → List e.Account → List (Balance e.Coins) → List FilePath → ℕ → Exec e.World (Unit {0})
  unfolding fund_genesis save_files
  init_gen_files chain_id gen_accounts gen_balances gen_files n = do
    auth ← lift (e.get_auth e.default_genesis)
    accounts ← lift (e.pack_accounts gen_accounts)
    with_auth ← lift (e.put_auth (record auth { accounts = accounts }) e.default_genesis)
    bank ← lift (e.get_bank with_auth)
    with_bank ← lift (e.put_bank (fund_genesis gen_balances bank) with_auth)
    app_state ← lift (e.marshal_indent with_bank)
    save_files chain_id app_state n gen_files

  -- `if appState == nil { appState = nodeAppState }`
  unfoldable pub first_state : Option e.AppState → e.AppState → e.AppState
  first_state none node_state = node_state
  first_state (some s) node_state = s

  module _ (args : InitArgs e.Coin) (peers : Bytes) (gen_time : e.Time) where
    -- The configuration of a node once all nodes are known.
    unfoldable pub with_peers : ℕ → NodeConfig e.Rest → NodeConfig e.Rest
    unfolding port_at
    with_peers i config = record config {
      persistent_peers = peers;
      allow_duplicate_ip = true;
      p2p_listen_address = ascii "tcp://0.0.0.0:" ++ itoa (p2p_port i);
      rpc_listen_address = ascii "tcp://127.0.0.1:" ++ port_at args.ports i;
      proxy_app = ascii "tcp://127.0.0.1:" ++ itoa (proxy_port i);
      prometheus_listen_addr = ascii ":" ++ itoa (prometheus_port i);
      prometheus = true;
    }

    -- One node: its state from the genesis transactions, its configuration, and its genesis file. The
    -- configuration and the first node's state are handed on.
    unfoldable pub collect_node :
        ℕ
        → Bytes
        → e.PubKey
        → NodeConfig e.Rest × Option e.AppState
        → Exec (Building e) (NodeConfig e.Rest × Option e.AppState)
    unfolding with_peers first_state in_world reads_world writes
    collect_node i node_id key (config, app_state) =
        let named = record config {
          moniker = node_dir_name e args i;
          root_dir = node_dir e args i;
        } in
        let peered = with_peers i named in
        do
          reads_world e (e.app_genesis_from_file (e.genesis_file named))
          node_state ←
              in_world e
                (e.gen_app_state_from_config args.chain_id (gentxs_dir e args i) node_id key named)
          writes e (
              e.write_node_config (node_dir e args i ++ (ascii "config" ∷ ascii "config.toml" ∷ []))
                peered)
          in_world e (
              e.export_genesis_file_with_time (e.genesis_file peered) args.chain_id
                (first_state app_state node_state) gen_time)
          pure (peered, some (first_state app_state node_state))

    -- The loop of `collectGenFiles`: `n` nodes from `i` on, with their ids and keys.
    unfoldable pub collect_nodes :
        ℕ
        → ℕ
        → List Bytes
        → List e.PubKey
        → NodeConfig e.Rest × Option e.AppState
        → Exec (Building e) (Unit {0})
    unfolding collect_node
    collect_nodes zero i ids keys state = pure tt
    collect_nodes (suc n) i (id ∷ ids) (key ∷ keys) state = do
      next ← collect_node i id key state
      collect_nodes n (i + 1) ids keys next
    collect_nodes (suc n) i _ _ state = λ s. (panicked, s)

  -- `collectGenFiles`
  unfoldable pub collect_gen_files : InitArgs e.Coin → Bytes → ℕ → Exec (Building e) (Unit {0})
  unfolding collect_nodes
  collect_gen_files args peers n s =
      collect_nodes args peers (e.now s.world) n 0 s.node_ids s.val_pub_keys (s.node_config, none) s
