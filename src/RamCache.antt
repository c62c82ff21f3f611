-- ===== src/RamCache.antt =====
-- The RAM cache, client/src/fs/ram_cache.cpp.
pub mod Budget
pub mod Names
pub mod Blocks
pub mod Timed
pub mod Read
pub mod Handles
pub mod State
pub mod Prefetch
pub mod Fetch
pub mod Flights
pub mod Request
