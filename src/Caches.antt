-- ===== src/Caches.antt =====
-- The caches of `src/common/caches`.
pub mod LruCache
