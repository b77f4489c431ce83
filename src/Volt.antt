-- ===== src/Volt.antt =====
-- The payment channels, chain/src/volt.
pub mod Secrets
pub mod Channel
