-- ===== src/Store.antt =====
-- The in-memory half of internal/logstore.
pub mod Ring
pub mod Memory
pub mod Durable
pub mod Fanout
mod Tests
