-- ===== src/Node.antt =====
-- The node around the chain, chain/src/node.
pub mod Mempool
pub mod Store
pub mod Draft
pub mod ChainState
