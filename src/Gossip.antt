-- ===== src/Gossip.antt =====
-- cerulea-node/src/cerulea-consensus/src/dvf_gossip.rs: votes on the network.
pub mod Pool
pub mod Validate
mod Tests
