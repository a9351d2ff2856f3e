-- ===== src/StatsService.antt =====
-- stats_service.go: the statistics that the command line and the dashboard report.
pub mod Project
pub mod Derived
pub mod Hourly
pub mod ProjectCosts
pub mod Payload
pub mod Queries
