-- ===== src/Frame.antt =====
-- What the pallets take from the framework: dispatch errors, storage-changing calls, origins, and
-- the currency that they call.
pub mod Errors
pub mod Action
pub mod Currency
pub mod Bank
