-- ===== src/Sync.antt =====
-- internal/sync/service.go: the copy of logs into the database, from a directory and from codespaces.
pub mod Logs
pub mod Codespaces
