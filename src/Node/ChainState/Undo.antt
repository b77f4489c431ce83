-- ===== src/Node/ChainState/Undo.antt =====
-- The undo record of chain/src/node/chainstate.ts restores what the block has changed.
pub mod Outpoints
pub mod Rewind
pub mod Notes
pub mod Records
pub mod Accounts
pub mod Drafts
pub mod Restores
pub mod Written
pub mod Roundtrip
