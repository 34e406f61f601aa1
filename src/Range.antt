-- ===== src/Range.antt =====
-- The Range header of GetObject and the 8 MB blocks that serve it: parseSingleRange,
-- handleRangeGetWithCache and prefetchBlocks of internal/handler/handler.go.
pub mod Numbers
pub mod Header
pub mod Decimal
pub mod Blocks
pub mod Serving
pub mod Stale
pub mod Roundtrip
pub mod Printed
