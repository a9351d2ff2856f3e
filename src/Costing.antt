-- ===== src/Costing.antt =====
-- internal/costing/service.go: model names, price periods, costs and the attribution of user turns.
pub mod Normalize
pub mod Periods
pub mod Cost
pub mod Reattribute
pub mod Aggregate
