-- ===== src/Poi.antt =====
-- cerulea-pallets/pallet-cerulea-poi/src/lib.rs: inference results of validators, challenges, and
-- the scores that the off-chain worker computes.
pub mod State
pub mod Offchain
pub mod Calls
pub mod OnChain
mod Tests
