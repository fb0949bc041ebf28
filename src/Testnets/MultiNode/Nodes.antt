-- ===== src/Testnets/MultiNode/Nodes.antt =====
-- The loop of `initTestnetFiles` over the nodes: the directories, keys and genesis transactions.
use veranatest.Testnets.MultiNode.Flags.{InitArgs, bond_denom}
use veranatest.Testnets.MultiNode.Ports.{api_port, grpc_port, itoa, p2p_port}
use veranatest.Prelude.{
  Bytes, Exec, List, Option, Outcome, [], ascii, err, if◌then◌else◌, is_empty, lift, none, ok,
  panicked, pure, some, suc, zero, ℕ, ◌++◌, ◌+◌, ◌>>=◌, ◌>>◌, ◌∷◌,
}
use veranatest.Prelude.Int.{pos}
use veranatest.Sdk.Nodes.{Balance, FilePath, NodeConfig, NodeEnv, ServerConfig}

-- `args.ports[i]`: a missing key gives the empty text.
unfoldable pub port_at : List Bytes → ℕ → Bytes
port_at [] i = []
port_at (p ∷ ports) zero = p
port_at (p ∷ ports) (suc i) = port_at ports i

unfoldable pub stake_at : {C : Type 0} → List C → ℕ → Option C
stake_at [] i = none
stake_at (c ∷ coins) zero = some c
stake_at (c ∷ coins) (suc i) = stake_at coins i

module _ (e : NodeEnv) where
  -- The variables of `initTestnetFiles`, with the world that its calls change.
  pub record Building : Type 0 where
    pub world : e.World
    pub node_config : NodeConfig e.Rest
    pub app_config : ServerConfig e.Rest
    pub gen_accounts : List e.Account
    pub gen_balances : List (Balance e.Coins)
    pub gen_files : List FilePath
    pub persistent_peers : Bytes
    pub gentx_files : List FilePath
    pub node_ids : List Bytes
    pub val_pub_keys : List e.PubKey

  unfoldable pub in_world : {A : Type 0} → Exec e.World A → Exec Building A
  in_world m s = let r = m s.world in (r.0, record s { world = r.1 })

  unfoldable pub reads_world : {A : Type 0} → (e.World → Outcome A) → Exec Building A
  reads_world f s = (f s.world, s)

  unfoldable pub change : (Building → Building) → Exec Building (Unit {0})
  change f s = (ok tt, f s)

  -- A writer without a result; `none` is a panic.
  unfoldable pub writes : (e.World → Option e.World) → Exec Building (Unit {0})
  writes f s = elim (f s.world) [ some w ↦ (ok tt, record s { world = w }) | none ↦ (panicked, s) ]

  -- `if err != nil { _ = os.RemoveAll(args.outputDir); return err }`
  unfoldable pub or_remove : {A : Type 0} → FilePath → Exec Building A → Exec Building A
  unfolding in_world
  or_remove output_dir m s = elim (m s).0 [
    | ok a ↦ (ok a, (m s).1)
    | err x ↦ (err x, (in_world (e.remove_all output_dir) (m s).1).1)
    | panicked ↦ (panicked, (m s).1)
  ]

  -- `writeFile`
  unfoldable pub write_file : FilePath → FilePath → Bytes → Exec Building (Unit {0})
  unfolding in_world
  write_file file dir contents = do in_world (e.mkdir_all dir); in_world (e.write file contents)

  module _ (args : InitArgs e.Coin) where
    abbrev pub node_dir_name : ℕ → Bytes
    node_dir_name i = args.node_dir_prefix ++ itoa (pos i)

    abbrev pub node_dir : ℕ → FilePath
    node_dir i = args.output_dir ++ (node_dir_name i ∷ [])

    abbrev pub gentxs_dir : ℕ → FilePath
    gentxs_dir i = node_dir i ++ (ascii "config" ∷ ascii "gentx" ∷ [])

    unfoldable pub memo_of : ℕ → Bytes → Bytes
    memo_of i node_id =
        node_id ++ (ascii "@" ++ (args.starting_ip_address ++ (ascii ":" ++ itoa (p2p_port i))))

    unfoldable pub add_peer : Bytes → Bytes → Bytes
    add_peer peers memo = if is_empty peers then memo else peers ++ (ascii "," ++ memo)

    -- The configuration, the directory and the validator's files of a node.
    unfoldable pub init_node : ℕ → Exec Building (Bytes × e.PubKey)
    unfolding change or_remove in_world memo_of add_peer port_at
    init_node i = do
      change (λ s. record s {
        node_config = record s.node_config {
          root_dir = node_dir i;
          moniker = node_dir_name i;
          rpc_listen_address = ascii "tcp://0.0.0.0:" ++ port_at args.ports i;
        };
      })
      or_remove args.output_dir (in_world (e.mkdir_all (node_dir i ++ (ascii "config" ∷ []))))
      files ←
          or_remove args.output_dir
            (λ s. in_world (e.initialize_node_validator_files s.node_config) s)
      change (λ s. record s {
        node_ids = s.node_ids ++ (files.0 ∷ []);
        val_pub_keys = s.val_pub_keys ++ (files.1 ∷ []);
        persistent_peers = add_peer s.persistent_peers (memo_of i files.0);
        gen_files = s.gen_files ++ (e.genesis_file s.node_config ∷ []);
      })
      pure files

    -- The key of a node, with its words in a file.
    unfoldable pub create_key : ℕ → Exec Building (e.Keyring × e.Address)
    unfolding in_world or_remove write_file
    create_key i = do
      kb ← in_world (e.new_keyring args.keyring_backend (node_dir i))
      algo ← lift (e.new_signing_algo args.algo kb)
      key ←
          or_remove args.output_dir (in_world (e.generate_save_coin_key kb (node_dir_name i) algo))
      cli_print ← lift (e.marshal_secret key.1)
      write_file (node_dir i ++ (ascii "key_seed.json" ∷ [])) (node_dir i) cli_print
      pure (kb, key.0)

    -- The account and the balance of a node at genesis.
    unfoldable pub add_account : e.Address → Exec Building (Unit {0})
    unfolding change
    add_account addr = do
      tokens ← lift (e.new_coin (ascii "testtoken") (e.tokens_from_consensus_power 1000))
      stake ← lift (e.new_coin bond_denom (e.tokens_from_consensus_power 500))
      change (λ s. record s {
        gen_balances =
            s.gen_balances
            ++ (record {
              address = e.address_text addr;
              coins = e.sorted_coins (tokens ∷ stake ∷ []);
            }
                ∷ []);
        gen_accounts = s.gen_accounts ++ (e.new_base_account addr ∷ []);
      })

    -- The stake of a node, or 100 units of power where the flag names none.
    unfoldable pub stake_of : ℕ → Outcome e.Coin
    unfolding stake_at
    stake_of i = elim (stake_at args.validators_stakes_amount i) [
      | some c ↦ ok c
      | none ↦ e.new_coin bond_denom (e.tokens_from_consensus_power 100)
    ]

    -- The transaction that creates the validator, signed and written into a file.
    unfoldable pub create_gentx :
        ℕ → Bytes → e.PubKey → e.Keyring → e.Address → Exec Building (Unit {0})
    unfolding stake_of in_world change write_file memo_of
    create_gentx i node_id key kb addr = do
      val_tokens ← lift (stake_of i)
      msg ← lift (
          e.new_msg_create_validator (e.validator_address_text addr) key val_tokens
            (node_dir_name i))
      builder ← lift (e.set_msgs msg)
      signed ← in_world (
          e.sign args.chain_id (memo_of i node_id) kb (node_dir_name i)
            (e.set_memo (memo_of i node_id) builder))
      tx_bz ← lift (e.tx_json_encode signed)
      change (λ s. record s {
        gentx_files =
            s.gentx_files
            ++ ((gentxs_dir i ++ ((ascii "gentx-" ++ (node_id ++ ascii ".json")) ∷ [])) ∷ []);
      })
      write_file (gentxs_dir i ++ ((ascii "gentx-" ++ (node_id ++ ascii ".json")) ∷ []))
          (gentxs_dir i) tx_bz

    unfoldable pub write_app_config : ℕ → Exec Building (Unit {0})
    unfolding change writes
    write_app_config i = do
      change (λ s. record s {
        app_config = record s.app_config {
          grpc_address = args.starting_ip_address ++ (ascii ":" ++ itoa (grpc_port i));
          api_address = ascii "tcp://localhost:" ++ itoa (api_port i);
        };
      })
      (λ s.
          writes
            (e.write_server_config (node_dir i ++ (ascii "config" ∷ ascii "app.toml" ∷ []))
              s.app_config)
            s)

    -- The loop over the nodes: `n` rounds from `i` on.
    unfoldable pub init_nodes : ℕ → ℕ → Exec Building (Unit {0})
    unfolding init_node create_key add_account create_gentx write_app_config
    init_nodes zero i = pure tt
    init_nodes (suc n) i = do
      files ← init_node i
      key ← create_key i
      add_account key.1
      create_gentx i files.0 files.1 key.0 key.1
      write_app_config i
      init_nodes n (i + 1)
