-- ===== src/Strategies.antt =====
-- src/strategies: the older strategies, which do not use the coordinator.
pub mod HedgeVolume
pub mod SpreadArbitrage
