-- ===== src/Persistence.antt =====
-- src/persistence: the store behind the coordinator.
pub mod Store
pub mod Pnl
pub mod Steps
pub mod Trail
pub mod Tables
pub mod Listing
