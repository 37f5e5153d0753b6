-- ===== src/Spool.antt =====
-- internal/agent/reporter/spool.go: the reports that the agent could not send.
pub mod Names
pub mod Store
pub mod Replay
mod Tests
