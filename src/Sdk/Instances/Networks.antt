-- ===== src/Sdk/Instances/Networks.antt =====
-- A machine whose files are a list of pairs, the newest of a path first, for the commands that make
-- networks. Keys, accounts and transactions are texts.
use veranatest.Prelude.Int.{pos}
use veranatest.Prelude.{
  Bytes, Error, Exec, List, Option, Outcome, [], ap, ascii, err, false, if◌then◌else◌, length, none,
  ok, pure, pure_inversion, refl, some, sym, true, ℕ, ◌++◌, ◌+◌, ◌∷◌, ◌≡◌,
}
use veranatest.Sdk.Nodes.{Balance, FilePath, IsFileSystem, NodeEnv, same_path}

abbrev pub Files : Type 0
Files = List (FilePath × Bytes)

unfoldable pub content_of : Files → FilePath → Option Bytes
content_of [] q = none
content_of ((p, c) ∷ files) q = if same_path p q then some c else content_of files q

unfoldable pub copy_content : FilePath → FilePath → Exec Files ℕ
unfolding content_of
copy_content src dst files = elim (content_of files src) [
  | some c ↦ (ok (length c), (dst, c) ∷ files)
  | none ↦ (err Error.not_found, files)
]

unfoldable pub sum : List ℕ → ℕ
sum [] = 0
sum (n ∷ ns) = n + sum ns

abbrev pub text_machine : NodeEnv
text_machine = record {
  World = Files;
  Rest = Unit;
  Keyring = Bytes;
  Algo = Bytes;
  PubKey = Bytes;
  Address = Bytes;
  Account = Bytes;
  Packed = List Bytes;
  Coin = ℕ;
  Coins = ℕ;
  Msg = Bytes;
  TxBuilder = Bytes;
  GenState = List (Balance ℕ);
  AppState = Bytes;
  Time = ℕ;
  mkdir_all = λ p. pure tt;
  remove_all = λ p s. (ok tt, []);
  write = λ p c s. (ok tt, (p, c) ∷ s);
  open_file = λ p. pure tt;
  create = λ p s. (ok tt, (p, []) ∷ s);
  copy = copy_content;
  sync = λ p. pure tt;
  abs = λ p s. ok (ascii "home" ∷ p);
  default_config = record {
    min_gas_prices = [];
    api_enable = true;
    enable_hostname_label = false;
    telemetry_enabled = false;
    prometheus_retention_time = 0;
    grpc_address = [];
    api_address = [];
    rest = tt;
  };
  genesis_file = λ c. c.root_dir ++ (ascii "genesis.json" ∷ []);
  initialize_node_validator_files = λ c. pure (ascii "id-" ++ c.moniker, ascii "key");
  write_node_config = λ p c s. some s;
  write_server_config = λ p c s. some s;
  random = λ n s. (0, s);
  new_keyring = λ b p. pure b;
  new_signing_algo = λ a k. ok a;
  generate_save_coin_key = λ k name a. pure (name, ascii "words");
  marshal_secret = λ b. ok b;
  address_text = λ a. a;
  validator_address_text = λ a. a;
  new_base_account = λ a. a;
  new_int_from_string = λ b. none;
  new_coin = λ d n. ok 1;
  tokens_from_consensus_power = λ n. pos n;
  sorted_coins = sum;
  new_msg_create_validator = λ a k c m. ok a;
  set_msgs = λ m. ok m;
  set_memo = λ m t. t;
  sign = λ c m k n t. pure t;
  tx_json_encode = λ t. ok t;
  default_genesis = [];
  get_auth = λ g. ok (record { accounts = []; rest = tt });
  put_auth = λ a g. ok g;
  get_bank = λ g. ok (record { balances = g; supply = 0; rest = tt });
  put_bank = λ b g. ok b.balances;
  pack_accounts = λ a. ok a;
  sanitize_genesis_balances = λ b. b;
  add_coins = λ a b. a + b;
  marshal_indent = λ g. ok (ascii "genesis");
  save_as = λ c b p s. (ok tt, (p, b) ∷ s);
  now = λ s. 0;
  app_genesis_from_file = λ p s. ok tt;
  gen_app_state_from_config = λ c p i k n. pure (ascii "state");
  export_genesis_file_with_time = λ p c a t s. (ok tt, (p, a) ∷ s);
}

pub left_state :
    {A : Type 0} (a b : Outcome A) (s t : Files) → ◌≡◌ {A = Outcome A × Files} (a, s) (b, t) → s ≡ t
left_state {A} a b s t h = ap (λ (r : Outcome A × Files). r.1) h

pub created :
    (p : FilePath) (c : Bytes) (s t : Files) (q : FilePath)
    → (p, c) ∷ s ≡ t
    → content_of t q ≡ (if same_path p q then some c else content_of s q)
unfolding content_of
created p c s t q h = rw (← h) refl

pub copied :
    (src dst : FilePath) (n : ℕ) (c : Bytes) (s t : Files)
    → copy_content src dst s ≡ (ok n, t)
    → content_of s src ≡ some c
    → (q : FilePath) → content_of t q ≡ (if same_path dst q then some c else content_of s q)
unfolding copy_content
copied src dst n c s t h there q =
    let run = rw (copy_content, there) at h in
    created dst c s t q (left_state (ok (length c)) (ok n) _ t run)

abbrev pub text_machine-IsFileSystem : IsFileSystem text_machine
text_machine-IsFileSystem = record {
  read = content_of;
  open_ok = λ p s t h q. sym (ap (λ w. content_of w q) (pure_inversion tt tt s t h).1);
  create_ok = λ p s t h q. created p [] s t q (left_state (ok tt) (ok tt) _ t h);
  copy_ok = λ src dst n c s t h apart there empty q. copied src dst n c s t h there q;
  sync_ok = λ p s t h q. sym (ap (λ w. content_of w q) (pure_inversion tt tt s t h).1);
  root = ascii "home" ∷ [];
  abs_ok = λ p s. refl;
}
