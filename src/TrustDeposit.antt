-- ===== src/TrustDeposit.antt =====
-- x/td: the trust deposit, its yield paid from the Verana pool, and its parameters.
pub mod Types
pub mod Funds
pub mod Amounts
pub mod Settlement
pub mod Blocks
mod Conservation
pub mod Dust
pub mod Handlers
pub mod Messages
pub mod Updates
pub mod Module
mod Tests
