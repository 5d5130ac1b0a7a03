-- ===== src/Storage.antt =====
-- internal/storage: how entries reach the store.
pub mod Batcher
pub mod Tests
