-- ===== src/Market.antt =====
-- src/market: instruments, quotes and the registry.
pub mod Instrument
pub mod Quote
pub mod Registry
pub mod Pairs
pub mod Books
pub mod Fetcher
pub mod Loader
