-- ===== src/Tests.antt =====
-- Runs at concrete inputs.
pub mod Toy
pub mod Chain
pub mod Blocks
pub mod Volt
pub mod Sweeps
pub mod Base
pub mod Mempool
pub mod Reorg
