-- ===== src/Pos.antt =====
-- cerulea-pallets/pallet-cerulea-pos/src/lib.rs: the staking pallet.
pub mod State
pub mod Registry
pub mod Stake
pub mod Rewards
pub mod Distribute
pub mod Tests
