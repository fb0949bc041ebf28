-- ===== src/Sdk.antt =====
-- The libraries that the chain's own modules call, as records of operations with the documented
-- behaviour that those modules rely on. None of this code is in the repository.
pub mod Collections
pub mod Addresses
pub mod Instances
pub mod Group
pub mod Tx
pub mod Modules
pub mod Decimal
pub mod Bank
pub mod Staking
pub mod Testnet
pub mod Nodes
pub mod HttpGateway
