-- ===== src/Cache.antt =====
-- internal/cache: the object cache on disk.
pub mod Disk
pub mod CacheStats
pub mod Elements
pub mod Names
pub mod Lru
pub mod Invariant
pub mod Valid
pub mod Puts
pub mod Removal
pub mod Cleanup
pub mod Reachable
pub mod Order
pub mod Reads
pub mod Contents
pub mod Alias
pub mod Less
pub mod Manager
pub mod Counted
