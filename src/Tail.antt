-- ===== src/Tail.antt =====
-- cmd/codespace-tail-proto: the prototype that mirrors the logs of a codespace while they grow.
pub mod Store
pub mod Target
pub mod Files
pub mod File
pub mod Session
