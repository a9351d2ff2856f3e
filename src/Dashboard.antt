-- ===== src/Dashboard.antt =====
-- web_mode.go: the parts of the dashboard server that keep state.
pub mod Subscribers
pub mod Retry
pub mod Sync
pub mod Watch
