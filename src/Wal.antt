-- ===== src/Wal.antt =====
-- The write-ahead log, internal/wal/wal.go: frames, replay, and the log's state machine.
pub mod Frame
pub mod Replay
pub mod Log
mod Tests
