-- ===== src/Cache.antt =====
-- The HTTP cache of src/cache.ts.
pub mod Lru
pub mod Directives
pub mod Freshness
pub mod State
pub mod Requests
pub mod Storing
pub mod Settings
pub mod Upkeep
pub mod Invalidation
pub mod Persistence
pub mod Tags
pub mod Counts
pub mod Capacity
pub mod Eviction
pub mod Room
pub mod Invariant
pub mod Preserved
pub mod Maintained
pub mod TagInvalidation
pub mod Shrinking
pub mod Limits
pub mod Lifetime
pub mod Refusals
pub mod History
