-- ===== src/Storage.antt =====
-- `src/storage`: what one storage service keeps, and how data is spread over several of them.
pub mod Overlap
pub mod Kv
pub mod RefCounter
pub mod Placing
pub mod Fanout
pub mod RrDataView
pub mod DataStore
pub mod EcDataView
pub mod GlobalCache
mod Tests
