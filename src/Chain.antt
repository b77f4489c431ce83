-- ===== src/Chain.antt =====
-- The state transition of chain/src/chain.ts.
pub mod Attempt
pub mod Contract
pub mod Apply
pub mod Blockchain
