-- ===== src/Funding.antt =====
-- src/strategy/funding_arb and the cache of funding rates that it reads.
pub mod Comparator
pub mod RateCache
pub mod Positions
pub mod Monitor
pub mod Runner
pub mod Daemon
pub mod Premium
