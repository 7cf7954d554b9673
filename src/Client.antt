-- ===== src/Client.antt =====
-- The command-line client, internal/client.
pub mod Ansi
mod Tests
