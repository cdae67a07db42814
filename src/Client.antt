-- ===== src/Client.antt =====
-- The Go client: pkg/spruce.
pub mod Options
pub mod Batcher
pub mod Compression
pub mod Deduper
pub mod Retry
