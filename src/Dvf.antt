-- ===== src/Dvf.antt =====
-- cerulea-pallets/pallet-cerulea-dvf/src/lib.rs: deterministic finality by weighted votes.
pub mod State
pub mod Finality
pub mod Weights
pub mod Registry
