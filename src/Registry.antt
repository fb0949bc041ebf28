-- ===== src/Registry.antt =====
-- x/validatorregistry: the whitelist of validators that may join the chain.
pub mod Types
pub mod Handlers
pub mod Genesis
pub mod Queries
pub mod Lookups
pub mod Onboarding
pub mod Whitelist
pub mod Params
pub mod History
pub mod Refinement
pub mod Module
mod Tests
