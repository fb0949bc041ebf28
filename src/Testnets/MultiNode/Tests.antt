-- ===== src/Testnets/MultiNode/Tests.antt =====
-- A network of two nodes on a machine of texts, and the theorems there.
use veranatest.Sdk.Nodes.{Balance, FilePath}
use veranatest.Testnets.MultiNode.Command.{init_testnet_files}
use veranatest.Testnets.MultiNode.Files.{
  base, copy_all, copy_file, copy_gentxs, copy_unless_there, goes_up, is_sub_dir, relative, up_from,
}
use veranatest.Testnets.MultiNode.Flags.{InitArgs, read_ports}
use veranatest.Testnets.MultiNode.Nodes.{gentxs_dir}
use veranatest.Testnets.MultiNode.Ports.{api, itoa, rpc}
use veranatest.Testnets.MultiNode.Gathering.{copy_gentxs_ok}
use veranatest.Testnets.MultiNode.Copies.{IsSource}
use veranatest.Testnets.MultiNode.Distinct.{IsPort, port_text, ports_distinct}
use veranatest.Prelude.{
  Bytes, List, [], arith, ascii, bytes_eq, false, has_prefix, inl, ok, pure, refl, some, ℕ, ◌++◌,
  ◌>>=◌, ◌∷◌, ◌≡◌,
}
use veranatest.Prelude.Int.{pos, ℤ}
use veranatest.Sdk.Instances.Networks.{
  Files, content_of, copy_content, text_machine, text_machine-IsFileSystem,
}

abbrev two_nodes : InitArgs ℕ
two_nodes = record {
  algo = ascii "secp256k1";
  chain_id = ascii "chain";
  keyring_backend = ascii "test";
  min_gas_prices = ascii "1stake";
  node_dir_prefix = ascii "validator";
  num_validators = pos 2;
  output_dir = ascii "out" ∷ [];
  starting_ip_address = ascii "localhost";
  validators_stakes_amount = [];
  ports = ascii "26657" ∷ ascii "26654" ∷ [];
}

-- The one genesis transaction, in the first node's directory.
abbrev gentx : FilePath
gentx = gentxs_dir text_machine two_nodes 0 ++ (ascii "gentx-a.json" ∷ [])

abbrev with_gentx : Files
with_gentx = (gentx, ascii "tx") ∷ []

-- The second node has a copy, in an empty file of its own.
abbrev copy_of : FilePath
copy_of = gentxs_dir text_machine two_nodes 1 ++ (ascii "gentx-a.json" ∷ [])

abbrev with_copies : Files
with_copies = (copy_of, ascii "tx") ∷ (copy_of, []) ∷ with_gentx

abbrev content : Bytes → Bytes
content x = ascii "tx"

run_copy : copy_gentxs text_machine two_nodes (gentx ∷ []) 2 0 with_gentx ≡ (ok tt, with_copies)
unfolding copy_gentxs copy_all copy_unless_there copy_file base is_sub_dir relative up_from goes_up
    has_prefix bytes_eq copy_content content_of ◌>>=◌ itoa pure
run_copy = refl

gentx-IsSource : IsSource text_machine text_machine-IsFileSystem content 4 with_gentx gentx
unfolding goes_up has_prefix content_of bytes_eq itoa
gentx-IsSource = record {
  dir = gentxs_dir text_machine two_nodes 0;
  name = ascii "gentx-a.json";
  is = refl;
  deep = refl;
  plain = refl;
  held = refl;
}

copy_gentxs_ok_example : content_of with_copies copy_of ≡ some (ascii "tx")
unfolding base
copy_gentxs_ok_example =
    copy_gentxs_ok text_machine text_machine-IsFileSystem content two_nodes (gentx ∷ []) 2
      with_gentx with_copies (gentx-IsSource, tt) run_copy 1 (omega arith) gentx (inl refl)

abbrev four_ports : List Bytes
four_ports = read_ports [] (pos 4)

abbrev TwoServices : Type 0
TwoServices =
    let number : ℕ = 1 in
    let other : ℕ = 3 in
    (port : ℤ) × IsPort port
    × (port_text four_ports rpc number ≡ itoa port)
    × (port_text four_ports rpc number ≡ port_text four_ports api other
        → (rpc ≡ api) × (number ≡ other))

ports_distinct_example : TwoServices
ports_distinct_example = ports_distinct 4 rpc api 1 3 (omega arith) (omega arith) (omega arith)

-- Two nodes with 1500 units each.
abbrev balances : List (Balance ℕ)
balances =
    record { address = ascii "a"; coins = 1500 } ∷ record { address = ascii "b"; coins = 1500 } ∷ []

-- The whole command makes the files of both nodes.
run_multi_node :
    (init_testnet_files text_machine
      (record {
        root_dir = [];
        moniker = [];
        rpc_listen_address = [];
        persistent_peers = [];
        allow_duplicate_ip = false;
        p2p_listen_address = [];
        proxy_app = [];
        prometheus_listen_addr = [];
        prometheus = false;
        rest = tt;
      })
      two_nodes
      []).0
    ≡ ok tt
unfolding init_testnet_files ◌>>=◌ pure veranatest.Prelude.lift bytes_eq itoa has_prefix
    copy_content
run_multi_node = refl
