-- ===== src/Testnets/MultiNode/Distinct.antt =====
-- The ports of the services of a network of cmd/veranatestd/cmd/testnet_multi_node.go whose flags list
-- none.
use veranatest.Testnets.MultiNode.Ports.{
  Purpose, api, api_port, digits, grpc, grpc_port, itoa, p2p, p2p_port, port_of, prometheus,
  prometheus_port, proxy, proxy_port, rpc, rpc_port,
}
use veranatest.Testnets.MultiNode.Flags.{default_ports, read_ports}
use veranatest.Testnets.MultiNode.Nodes.{port_at}
use veranatest.Prelude.{
  Bool-cases, Bytes, List, [], ap, arith, if◌then◌else◌, inl, inr, leb, ltb, refl, suc, sym, zero,
  ℕ, ◌%◌, ◌*◌, ◌++◌, ◌+◌, ◌-◌, ◌/◌, ◌<◌, ◌==◌, ◌^◌, ◌∙◌, ◌∷◌, ◌≡◌, ◌≤◌,
}
use veranatest.Prelude.Int.{negsuc, pos, ℤ}

-- The service and the node that has a port, for up to 1317 nodes.
abbrev pub owner : ℤ → Purpose × ℕ
owner (negsuc n) = (api, 0)
owner (pos n) =
    if leb n 1317
    then (api, 1317 - n)
    else if leb n 9090
    then (grpc, (9090 - n) / 2)
    else if leb 26660 n
    then (prometheus, n - 26660)
    else if n % 3 == 2
    then (rpc, (26657 - n) / 3)
    else if n % 3 == 1
    then (p2p, (26656 - n) / 3)
    else (proxy, (26658 - n) / 3)

owner-port : (p : Purpose) (i : ℕ) → i < 1317 → owner (port_of p i) ≡ (p, i)
owner-port rpc i h = ground arith
owner-port p2p i h = ground arith
owner-port proxy i h = ground arith
owner-port prometheus i h = ground arith
owner-port grpc i h = ground arith
owner-port api i h = ground arith

-- A decimal text, read from the left.
abbrev read_digits : Bytes → ℕ → ℕ
read_digits [] acc = acc
read_digits (b ∷ rest) acc = read_digits rest (acc * 10 + (b - 48))

read-append :
    (front back : Bytes) (acc : ℕ)
    → read_digits (front ++ back) acc ≡ read_digits back (read_digits front acc)
read-append [] back acc = refl
read-append (b ∷ front) back acc = read-append front back (acc * 10 + (b - 48))

read-digits : (fuel n : ℕ) → n < 10 ^ fuel → read_digits (digits fuel n) 0 ≡ n
unfolding digits
read-digits zero n h = omega arith
read-digits (suc fuel) n h = elim (Bool-cases (ltb n 10)) [
  | inl small ↦ rw (small) (omega arith)
  | inr large ↦
      let front = read-digits fuel (n / 10) (omega arith) in
      rw (large) (read-append (digits fuel (n / 10)) ((48 + n % 10) ∷ []) 0 ∙ omega (arith, front))
]

-- The number that a listener can have.
abbrev pub IsPort : ℤ → Type 0
IsPort (pos n) = (1 ≤ n) × (n ≤ 65535)
IsPort (negsuc n) = ⊥

port_of-IsPort : (p : Purpose) (i : ℕ) → i < 1317 → IsPort (port_of p i)
port_of-IsPort rpc i h = ground arith
port_of-IsPort p2p i h = ground arith
port_of-IsPort proxy i h = ground arith
port_of-IsPort prometheus i h = ground arith
port_of-IsPort grpc i h = ground arith
port_of-IsPort api i h = ground arith

itoa_injective : (a b : ℤ) → IsPort a → IsPort b → itoa a ≡ itoa b → a ≡ b
unfolding itoa
itoa_injective (pos m) (pos n) h g e = ap pos (
    sym (read-digits 20 m (omega arith))
    ∙ (ap (λ t. read_digits t 0) e ∙ read-digits 20 n (omega arith)))
itoa_injective (negsuc m) b h g e = absurd h
itoa_injective (pos m) (negsuc n) h g e = absurd g

port_at-default_ports :
    (n i k : ℕ) → k < n → port_at (default_ports n i) k ≡ itoa (rpc_port (i + k))
unfolding port_at default_ports
port_at-default_ports zero i k h = absurd (omega arith)
port_at-default_ports (suc n) i zero h = ap (λ m. itoa (rpc_port m)) (omega arith)
port_at-default_ports (suc n) i (suc k) h =
    port_at-default_ports n (i + 1) k (omega arith) ∙ ap (λ m. itoa (rpc_port m)) (omega arith)

-- The text of the port that a service of a node is given, where `ports` are those of `initArgs`.
abbrev pub port_text : List Bytes → Purpose → ℕ → Bytes
port_text ports rpc i = port_at ports i
port_text ports p2p i = itoa (p2p_port i)
port_text ports proxy i = itoa (proxy_port i)
port_text ports prometheus i = itoa (prometheus_port i)
port_text ports grpc i = itoa (grpc_port i)
port_text ports api i = itoa (api_port i)

port_text-default :
    (n : ℕ) (p : Purpose) (i : ℕ)
    → i < n
    → port_text (read_ports [] (pos n)) p i ≡ itoa (port_of p i)
unfolding read_ports
port_text-default n rpc i h =
    port_at-default_ports n 0 i h ∙ ap (λ m. itoa (rpc_port m)) (omega arith)
port_text-default n p2p i h = refl
port_text-default n proxy i h = refl
port_text-default n prometheus i h = refl
port_text-default n grpc i h = refl
port_text-default n api i h = refl

-- Where the flag that lists the ports is empty and there are at most 1317 nodes, the port of every
-- service of a node is the text of a number that a listener can have, and two services with the same
-- text are the same service of the same node.
pub ports_distinct :
    (n : ℕ) (p q : Purpose) (i j : ℕ)
    → n ≤ 1317
    → i < n
    → j < n
    → (port : ℤ) × IsPort port
      × (port_text (read_ports [] (pos n)) p i ≡ itoa port)
      × (port_text (read_ports [] (pos n)) p i ≡ port_text (read_ports [] (pos n)) q j
          → (p ≡ q) × (i ≡ j))
ports_distinct n p q i j few h g =
    let ph = port_of-IsPort p i (omega arith) in
    let text = port_text-default n p i h in
    (
      port_of p i,
      ph,
      text,
      λ e.
          let texts = sym text ∙ (e ∙ port_text-default n q j g) in
          let same = itoa_injective _ _ ph (port_of-IsPort q j (omega arith)) texts in
          let owners =
            sym (owner-port p i (omega arith)) ∙ (ap owner same ∙ owner-port q j (omega arith)) in
          (ap (λ (o : Purpose × ℕ). o.0) owners, ap (λ (o : Purpose × ℕ). o.1) owners),
    )
