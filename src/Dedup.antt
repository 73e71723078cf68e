-- ===== src/Dedup.antt =====
-- `src/deduplicator`: data is cut into fragments, of which some are found in storage already.
pub mod Set
pub mod Fragmentation
pub mod Flush
pub mod Reject
pub mod Search
pub mod Ready
pub mod Marked
pub mod Rejected
pub mod Deduplicate
mod Tests
