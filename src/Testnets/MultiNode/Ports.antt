-- ===== src/Testnets/MultiNode/Ports.antt =====
-- The ports of the nodes in cmd/veranatestd/cmd/testnet_multi_node.go, and their texts.
use veranatest.Prelude.{Bytes, [], if◌then◌else◌, ltb, suc, zero, ℕ, ◌%◌, ◌*◌, ◌++◌, ◌+◌, ◌/◌, ◌∷◌}
use veranatest.Prelude.Int.{negsuc, pos, sub_ℕ, ℤ}

-- `strconv.Itoa`; twenty digits are enough for an int.
unfoldable pub digits : ℕ → ℕ → Bytes
digits zero n = []
digits (suc fuel) n =
    let front = digits fuel (n / 10) in
    if ltb n 10 then (48 + n) ∷ [] else front ++ ((48 + n % 10) ∷ [])

unfoldable pub itoa : ℤ → Bytes
unfolding digits
itoa (pos n) = digits 20 n
itoa (negsuc n) = 45 ∷ digits 20 (n + 1)

abbrev pub rpc_port : ℕ → ℤ
rpc_port i = sub_ℕ 26657 (3 * i)

abbrev pub p2p_port : ℕ → ℤ
p2p_port i = sub_ℕ 26656 (3 * i)

abbrev pub proxy_port : ℕ → ℤ
proxy_port i = sub_ℕ 26658 (3 * i)

abbrev pub prometheus_port : ℕ → ℤ
prometheus_port i = pos (26660 + i)

abbrev pub grpc_port : ℕ → ℤ
grpc_port i = sub_ℕ 9090 (2 * i)

abbrev pub api_port : ℕ → ℤ
api_port i = sub_ℕ 1317 i

-- The ports of one node, by their purpose.
pub data Purpose : Type 0 where
  rpc p2p proxy prometheus grpc api : Purpose

abbrev pub port_of : Purpose → ℕ → ℤ
port_of rpc i = rpc_port i
port_of p2p i = p2p_port i
port_of proxy i = proxy_port i
port_of prometheus i = prometheus_port i
port_of grpc i = grpc_port i
port_of api i = api_port i
