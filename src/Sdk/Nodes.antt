-- ===== src/Sdk/Nodes.antt =====
-- What cmd/veranatestd/cmd/testnet_multi_node.go uses of cometbft, the SDK and the operating system.
-- A path is the list of its elements, as `filepath.Join` leaves them.
use veranatest.Prelude.{
  Bool, Bool-cases, Bytes, Exec, List, Option, Outcome, [], ap₂, arith, bytes_eq, bytes_eq_refl,
  bytes_eq→eq, false, if◌then◌else◌, inl, inr, ok, refl, some, true, ℕ, ◌&&◌, ◌++◌, ◌∷◌, ◌≡◌, ◌≢◌,
}
use veranatest.Prelude.Int.{ℤ}

abbrev pub FilePath : Type 0
FilePath = List Bytes

-- The fields of cometbft's `Config` that the command sets, and the others as `rest`.
pub record NodeConfig (Rest : Type 0) : Type 0 where
  pub root_dir : FilePath
  pub moniker : Bytes
  pub rpc_listen_address : Bytes
  pub persistent_peers : Bytes
  pub allow_duplicate_ip : Bool
  pub p2p_listen_address : Bytes
  pub proxy_app : Bytes
  pub prometheus_listen_addr : Bytes
  pub prometheus : Bool
  pub rest : Rest

-- The same of the server's `Config`; `MinGasPrices` is the field of its embedded `BaseConfig`.
pub record ServerConfig (Rest : Type 0) : Type 0 where
  pub min_gas_prices : Bytes
  pub api_enable : Bool
  pub enable_hostname_label : Bool
  pub telemetry_enabled : Bool
  pub prometheus_retention_time : ℕ
  pub grpc_address : Bytes
  pub api_address : Bytes
  pub rest : Rest

pub record Balance (Coins : Type 0) : Type 0 where
  pub address : Bytes
  pub coins : Coins

pub record AuthGenesis (Accounts Rest : Type 0) : Type 0 where
  pub accounts : Accounts
  pub rest : Rest

pub record BankGenesis (Coins Rest : Type 0) : Type 0 where
  pub balances : List (Balance Coins)
  pub supply : Coins
  pub rest : Rest

pub record NodeEnv : Type 1 where
  pub World : Type 0
  pub Rest : Type 0
  pub Keyring : Type 0
  pub Algo : Type 0
  pub PubKey : Type 0
  pub Address : Type 0
  pub Account : Type 0
  pub Packed : Type 0
  pub Coin : Type 0
  pub Coins : Type 0
  pub Msg : Type 0
  pub TxBuilder : Type 0
  pub GenState : Type 0
  pub AppState : Type 0
  pub Time : Type 0
  -- files
  pub mkdir_all : FilePath → Exec World (Unit {0})
  pub remove_all : FilePath → Exec World (Unit {0})
  pub write : FilePath → Bytes → Exec World (Unit {0})
  pub open_file : FilePath → Exec World (Unit {0})
  pub create : FilePath → Exec World (Unit {0})
  -- `io.Copy` from the first path to the second, and the bytes that it copies
  pub copy : FilePath → FilePath → Exec World ℕ
  pub sync : FilePath → Exec World (Unit {0})
  pub abs : FilePath → World → Outcome FilePath
  -- the configuration of nodes
  pub default_config : ServerConfig Rest
  pub genesis_file : NodeConfig Rest → FilePath
  pub initialize_node_validator_files : NodeConfig Rest → Exec World (Bytes × PubKey)
  pub write_node_config : FilePath → NodeConfig Rest → World → Option World
  pub write_server_config : FilePath → ServerConfig Rest → World → Option World
  -- keys and transactions
  pub random : ℕ → World → ℕ × World
  pub new_keyring : Bytes → FilePath → Exec World Keyring
  pub new_signing_algo : Bytes → Keyring → Outcome Algo
  pub generate_save_coin_key : Keyring → Bytes → Algo → Exec World (Address × Bytes)
  pub marshal_secret : Bytes → Outcome Bytes
  pub address_text : Address → Bytes
  pub validator_address_text : Address → Bytes
  pub new_base_account : Address → Account
  pub new_int_from_string : Bytes → Option ℤ
  -- `sdk.NewCoin`, which panics for a negative amount
  pub new_coin : Bytes → ℤ → Outcome Coin
  pub tokens_from_consensus_power : ℕ → ℤ
  pub sorted_coins : List Coin → Coins
  pub new_msg_create_validator : Bytes → PubKey → Coin → Bytes → Outcome Msg
  pub set_msgs : Msg → Outcome TxBuilder
  pub set_memo : Bytes → TxBuilder → TxBuilder
  -- the chain's id, the memo, the keyring and the name of the key
  pub sign : Bytes → Bytes → Keyring → Bytes → TxBuilder → Exec World TxBuilder
  pub tx_json_encode : TxBuilder → Outcome Bytes
  -- genesis
  pub default_genesis : GenState
  pub get_auth : GenState → Outcome (AuthGenesis Packed Rest)
  pub put_auth : AuthGenesis Packed Rest → GenState → Outcome GenState
  pub get_bank : GenState → Outcome (BankGenesis Coins Rest)
  pub put_bank : BankGenesis Coins Rest → GenState → Outcome GenState
  pub pack_accounts : List Account → Outcome Packed
  pub sanitize_genesis_balances : List (Balance Coins) → List (Balance Coins)
  pub add_coins : Coins → Coins → Coins
  pub marshal_indent : GenState → Outcome Bytes
  -- `GenesisDoc.SaveAs`: the chain's id, the state and the file
  pub save_as : Bytes → Bytes → FilePath → Exec World (Unit {0})
  pub now : World → Time
  pub app_genesis_from_file : FilePath → World → Outcome (Unit {0})
  -- the chain's id, the directory of gentxs, the node's id and key, and its configuration
  pub gen_app_state_from_config :
      Bytes → FilePath → Bytes → PubKey → NodeConfig Rest → Exec World AppState
  pub export_genesis_file_with_time : FilePath → Bytes → AppState → Time → Exec World (Unit {0})

abbrev pub same_path : FilePath → FilePath → Bool
same_path [] [] = true
same_path (x ∷ p) (y ∷ q) = bytes_eq x y && same_path p q
same_path _ _ = false

pub same_path→eq : (p q : FilePath) → same_path p q ≡ true → p ≡ q
same_path→eq [] [] h = refl
same_path→eq [] (y ∷ q) h = ground arith
same_path→eq (x ∷ p) [] h = ground arith
same_path→eq (x ∷ p) (y ∷ q) h = elim (Bool-cases (bytes_eq x y)) [
  | inl e ↦ ap₂ (λ a b. a ∷ b) (bytes_eq→eq x y e) (same_path→eq p q (rw (e) at h))
  | inr e ↦ absurd (let g = rw (e) at h in cc)
]

pub same_path_refl : (p : FilePath) → same_path p p ≡ true
same_path_refl [] = refl
same_path_refl (x ∷ p) = rw (bytes_eq_refl x, same_path_refl p) refl

-- The files that the operations read and write; `read` is the content of a file that is there.
pub record IsFileSystem (e : NodeEnv) : Type 0 where
  pub read : e.World → FilePath → Option Bytes
  pub open_ok :
      (p : FilePath) (s t : e.World)
      → e.open_file p s ≡ (ok tt, t)
      → (q : FilePath) → read t q ≡ read s q
  pub create_ok :
      (p : FilePath) (s t : e.World)
      → e.create p s ≡ (ok tt, t)
      → (q : FilePath) → read t q ≡ (if same_path p q then some [] else read s q)
  pub copy_ok :
      (src dst : FilePath) (n : ℕ) (c : Bytes) (s t : e.World)
      → e.copy src dst s ≡ (ok n, t)
      → src ≢ dst
      → read s src ≡ some c
      → read s dst ≡ some []
      → (q : FilePath) → read t q ≡ (if same_path dst q then some c else read s q)
  pub sync_ok :
      (p : FilePath) (s t : e.World)
      → e.sync p s ≡ (ok tt, t)
      → (q : FilePath) → read t q ≡ read s q
  -- the directory that relative paths start from
  pub root : FilePath
  pub abs_ok : (p : FilePath) (s : e.World) → e.abs p s ≡ ok (root ++ p)
