-- ===== src/Handlers.antt =====
-- The S3 handlers of internal/handler/handler.go, over a storage backend and a cache.
pub mod Types
pub mod Plain
pub mod Coherence
pub mod Managed
pub mod Parts
pub mod Races
pub mod Buckets
pub mod Listing
pub mod Objects
pub mod Reads
pub mod Ranges
pub mod Versions
pub mod Multipart
pub mod Batch
