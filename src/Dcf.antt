-- ===== src/Dcf.antt =====
-- cerulea-pallets/pallet-cerulea-dcf/src/lib.rs: the coordination pallet.
pub mod Authors
pub mod Governance
pub mod Limits
pub mod Private
mod Sample
pub mod State
pub mod Trust
mod Tests
