-- ===== src/Testnets/MultiNode.antt =====
-- cmd/veranatestd/cmd/testnet_multi_node.go: the command that writes the files of a network of
-- several nodes.
pub mod Ports
pub mod Distinct
pub mod Copies
pub mod Gathering
mod Tests
pub mod Paths
pub mod Supply
pub mod Flags
pub mod Nodes
pub mod Files
pub mod Genesis
pub mod Command
