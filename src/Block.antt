-- ===== src/Block.antt =====
-- chain/src/block.ts.
pub mod Subsidy
pub mod Target
pub mod Header
pub mod Mine
